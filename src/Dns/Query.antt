-- ===== src/Dns/Query.antt =====
-- DNS questions with their names spelled out, and the answer that is expected to them: the
-- description that `build_dns_response` is compared with.
use webcm.Common.{
  bit_and, ◌≢◌, ℕ, ◌+◌, ◌*◌, ◌/◌, ◌%◌, ◌^◌, ◌≤◌, ◌<◌, ◌≡◌, List, [], ◌∷◌, ◌++◌, Bool, ◌==◌, ◌&&◌,
  if◌then◌else◌, length, All,
}

-- A question as the protocol has it; the labels of a name hold at most 63 bytes.
pub record Question : Type 0 where
  pub labels : List (List ℕ)
  pub qtype : ℕ
  pub qclass : ℕ

abbrev pub IsLabel : List ℕ → Type 0
IsLabel label = (1 ≤ length label) × (length label ≤ 63)

abbrev pub IsQuestion : Question → Type 0
IsQuestion q = All IsLabel q.labels × (q.qtype < 2 ^ 16) × (q.qclass < 2 ^ 16)

abbrev pub encode_u16 : ℕ → List ℕ
encode_u16 x = x / 256 ∷ x % 256 ∷ []

abbrev pub encode_labels : List (List ℕ) → List ℕ
encode_labels [] = []
encode_labels (label ∷ labels) = length label ∷ (label ++ encode_labels labels)

unfoldable pub encode_question : Question → List ℕ
encode_question q = encode_labels q.labels ++ (0 ∷ (encode_u16 q.qtype ++ encode_u16 q.qclass))

abbrev pub encode_questions : List Question → List ℕ
encode_questions [] = []
encode_questions (q ∷ qs) = encode_question q ++ encode_questions qs

-- The first bytes of a message, up to the question count, and its other three counts.
pub record Header : Type 0 where
  pub id_high : ℕ
  pub id_low : ℕ
  pub flags_high : ℕ
  pub flags_low : ℕ
  pub answers : ℕ
  pub authorities : ℕ
  pub additionals : ℕ

abbrev pub encode_query : Header → List Question → List ℕ
encode_query h qs =
    h.id_high
    ∷ h.id_low
    ∷ h.flags_high
    ∷ h.flags_low
    ∷ (encode_u16 (length qs)
        ++ (encode_u16 h.answers
            ++ (encode_u16 h.authorities ++ (encode_u16 h.additionals ++ encode_questions qs))))

-- An address is asked for: type A, class IN.
abbrev pub asks_address : Question → Bool
asks_address q = q.qtype == 1 && q.qclass == 1

abbrev pub count_addresses : List Question → ℕ
count_addresses [] = 0
count_addresses (q ∷ qs) = (if asks_address q then 1 else 0) + count_addresses qs

abbrev pub encode_u32 : ℕ → List ℕ
encode_u32 x = x / 2 ^ 24 % 256 ∷ x / 2 ^ 16 % 256 ∷ x / 2 ^ 8 % 256 ∷ x % 256 ∷ []

-- The record that the code writes for the address `ip`, for a minute: `c0` and the low byte of the
-- question's place, which is a pointer to the name only below byte 256; type A, class IN, the time to live, and
-- the address with its length.
unfoldable pub reference_answer : ℕ → ℕ → List ℕ
reference_answer start ip =
    0xc0
    ∷ start % 256
    ∷ (encode_u16 1 ++ (encode_u16 1 ++ (encode_u32 60 ++ (encode_u16 4 ++ encode_u32 ip))))

-- A question, and behind it the answer if it has one. `start` is the place of the question.
abbrev pub respond_one : ℕ → ℕ → Question → List ℕ
respond_one ip start q =
    encode_question q ++ (if asks_address q then reference_answer start ip else [])

abbrev pub respond : ℕ → ℕ → List Question → List ℕ
respond ip start [] = []
respond ip start (q ∷ qs) =
    respond_one ip start q ++ respond ip (start + length (respond_one ip start q)) qs

unfoldable pub reference_response : Header → List Question → ℕ → List ℕ
reference_response h qs ip =
    h.id_high
    ∷ h.id_low
    ∷ 0x81
    ∷ 0x80
    ∷ (encode_u16 (length qs)
        ++ (encode_u16 (count_addresses qs) ++ (0 ∷ 0 ∷ 0 ∷ 0 ∷ respond ip 12 qs)))

-- A standard query (opcode 0) with one question at least, each of them well formed.
pub record IsQuery (h : Header) (qs : List Question) : Type 0 where
  pub standard : bit_and (h.flags_high * 256 + h.flags_low) 0x7800 ≡ 0
  pub asked : qs ≢ []
  pub few : length qs < 2 ^ 16
  pub spelled : All IsQuestion qs
