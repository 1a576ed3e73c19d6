-- ===== src/Dns/Exact/Whole.antt =====
-- The whole function on a well-formed query.
use webcm.Common.{
  ℕ, ◌+◌, ◌*◌, ◌/◌, ◌%◌, ◌≤◌, ◌≡◌, ◌≢◌, refl, List, [], ◌∷◌, ◌++◌, length, ok, arith, ne→==_false,
}
use webcm.Dns.Query.{
  Question, IsQuery, Header, encode_u16, encode_questions, encode_query, count_addresses,
  reference_response,
}
use webcm.Dns.Response.{Progress, response_header, build_dns_response}
use webcm.Dns.Exact.{copy_behind, question_loop-encode}

abbrev pub header_bytes : Header → ℕ → List ℕ
header_bytes h n =
    h.id_high
    ∷ h.id_low
    ∷ h.flags_high
    ∷ h.flags_low
    ∷ (encode_u16 n
        ++ (encode_u16 h.answers ++ (encode_u16 h.authorities ++ encode_u16 h.additionals)))

count_addresses-le : (qs : List Question) → count_addresses qs ≤ length qs
count_addresses-le [] = omega arith
count_addresses-le (q ∷ qs) = ground (arith, count_addresses-le qs)

not-zero : (qs : List Question) → qs ≢ [] → length qs ≢ 0
not-zero [] h = absurd (h refl)
not-zero (q ∷ qs) h = omega arith

-- The loop's variables before its first round.
abbrev pub start : Header → ℕ → Progress
start h n = record { pos = 12; response = response_header (header_bytes h n); answer_count = 0 }

pub recombine : (n : ℕ) → n / 256 * 256 + n % 256 ≡ n
recombine n = omega arith

-- A standard query whose questions are spelled out in full is answered by the reference response,
-- whatever bytes follow the questions.
pub build_dns_response-encode :
    (h : Header) (qs : List Question) (ys : List ℕ) (len ip : ℕ)
    → IsQuery h qs
    → length (encode_query h qs) ≤ len
    → build_dns_response (encode_query h qs ++ ys) len ip ≡ ok (reference_response h qs ip)
unfolding build_dns_response
build_dns_response-encode h qs ys len ip v hl =
    rw (v.standard, recombine (length qs), ne→==_false (length qs) 0 (not-zero qs v.asked))
      (rw
        (
          copy_behind (encode_query h qs ++ ys) [] (header_bytes h (length qs))
              (encode_questions qs ++ ys) 0 12 refl refl refl,
          question_loop-encode qs ip len (start h (length qs)) (encode_query h qs ++ ys)
              (header_bytes h (length qs)) ys v.spelled refl refl (omega arith) (omega arith)
              (omega (arith, v.few)),
        )
        (unfold reference_response in ground (arith, v.few, count_addresses-le qs)))
