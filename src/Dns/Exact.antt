-- ===== src/Dns/Exact.antt =====
-- On a well-formed query `build_dns_response` is the reference answer.
pub mod Whole
use webcm.Common.{
  ◌^◌, if◌then◌else◌, append-nil, ℕ, zero, suc, ◌+◌, ◌-◌, ◌*◌, ◌/◌, ◌%◌, ◌≤◌, ◌<◌, ◌≡◌, refl, sym,
  ap, ◌∙◌, subst, List, [], ◌∷◌, ◌++◌, append_assoc, ltb, leb, lt→ltb, le→leb, ne→==_false,
  lt→leb_false, le→ltb_false, ◌==◌, Bool-cases, inl, inr, some, length, length-append, All, take,
  drop, take-append, drop-append, get_elem?-append_right, ok, read, arith,
}
use webcm.Dns.Query.{
  Question, asks_address, encode_u16, respond_one, reference_answer, encode_questions,
  count_addresses, respond, Header, encode_query, reference_response, IsLabel, IsQuestion,
  encode_labels, encode_question,
}
use webcm.Dns.Response.{
  Progress, read_u16, copy, skip_labels, skip_terminator, answer_record, take_question, end_round,
  question_round, question_loop, response_header, finish, build_dns_response,
}

pub read_behind :
    (buf xs ys : List ℕ) (p i : ℕ) → buf ≡ xs ++ ys → p ≡ length xs + i → read buf p ≡ read ys i
unfolding read
read_behind buf xs ys p i e h = rw (e, h, get_elem?-append_right xs ys i)

pub copy_behind :
    (buf xs ys zs : List ℕ) (p q : ℕ)
    → buf ≡ xs ++ (ys ++ zs)
    → p ≡ length xs
    → q ≡ length xs + length ys
    → copy buf p q ≡ ok ys
unfolding copy
copy_behind buf xs ys zs p q e hp hq =
    rw
      (
        le→leb p q (omega arith),
        le→leb q (length buf)
            (omega (arith, ap length e, length-append xs (ys ++ zs), length-append ys zs)),
      )
      (rw (e, hp, drop-append xs (ys ++ zs), width) (ap ok (take-append ys zs)))
  where
    width : q - length xs ≡ length ys
    width = omega arith

skip_labels-encode :
    (labels : List (List ℕ)) (fuel len p : ℕ) (buf xs ys : List ℕ)
    → All IsLabel labels
    → buf ≡ xs ++ (encode_labels labels ++ (0 ∷ ys))
    → p ≡ length xs
    → p + length (encode_labels labels) < len
    → len < fuel + p
    → skip_labels fuel buf len p ≡ ok (some (p + length (encode_labels labels)))
unfolding skip_labels
skip_labels-encode labels zero len p buf xs ys v e hp hl hf = absurd (omega arith)
skip_labels-encode [] (suc fuel) len p buf xs ys v e hp hl hf =
    rw (lt→ltb p len (omega arith), read_behind buf xs (0 ∷ ys) p 0 e (omega arith))
      (ap (λ n. ok (some n)) (omega arith))
skip_labels-encode (label ∷ labels) (suc fuel) len p buf xs ys v e hp hl hf =
    let inside : p + (length label + 1) + length (encode_labels labels) < len =
      omega (arith, length-append label (encode_labels labels)) in
    let rest =
      skip_labels-encode labels fuel len (p + (length label + 1)) buf (xs ++ (length label ∷ label))
        ys v.1 (e ∙ simp append_assoc) (omega (arith, length-append xs (length label ∷ label)))
        inside (omega arith) in
    rw (lt→ltb p len (omega arith), read_behind buf xs _ p 0 e (omega arith))
      (ground (arith, inside, rest, length-append label (encode_labels labels)))

pub read_u16_behind :
    (buf xs ys : List ℕ) (p x : ℕ)
    → buf ≡ xs ++ (encode_u16 x ++ ys)
    → p ≡ length xs
    → read_u16 buf p ≡ ok x
unfolding read_u16
read_u16_behind buf xs ys p x e h =
    rw (read_behind buf xs _ p 0 e (omega arith), read_behind buf xs _ (p + 1) 1 e (omega arith))
      (ap ok (omega arith))

-- What a round makes of a question that is spelled out in the query.
abbrev pub advance : ℕ → Progress → Question → Progress
advance ip s q = record {
  pos = s.pos + length (encode_question q);
  response = s.response ++ respond_one ip (length s.response) q;
  answer_count = s.answer_count + (if asks_address q then 1 else 0);
}

pub length-encode_question :
    (q : Question) → length (encode_question q) ≡ length (encode_labels q.labels) + 5
unfolding encode_question
length-encode_question q = omega (
  arith,
  length-append (encode_labels q.labels) (0 ∷ (encode_u16 q.qtype ++ encode_u16 q.qclass)),
)

module _ (ip len : ℕ) (s : Progress) (q : Question) (buf xs ys : List ℕ)
    (e : buf ≡ xs ++ (encode_question q ++ ys)) (hp : s.pos ≡ length xs)
    (hl : s.pos + length (encode_question q) ≤ len) (hc : s.answer_count + 1 < 2 ^ 16) where
  behind_name : List ℕ
  behind_name = xs ++ (encode_labels q.labels ++ (0 ∷ []))

  behind_name-eq : buf ≡ behind_name ++ (encode_u16 q.qtype ++ (encode_u16 q.qclass ++ ys))
  unfolding encode_question behind_name
  behind_name-eq = e ∙ simp append_assoc

  behind_type-eq : buf ≡ (behind_name ++ encode_u16 q.qtype) ++ (encode_u16 q.qclass ++ ys)
  behind_type-eq = behind_name-eq ∙ simp append_assoc

  length-behind_name : length behind_name ≡ s.pos + length (encode_labels q.labels) + 1
  unfolding behind_name
  length-behind_name = omega (
    arith,
    length-append xs (encode_labels q.labels ++ (0 ∷ [])),
    length-append (encode_labels q.labels) (0 ∷ []),
  )

  answer_record-reference : (place : ℕ) → answer_record place ip ≡ reference_answer place ip
  unfolding answer_record reference_answer
  answer_record-reference place = refl

  take_question-encode :
      (pos : ℕ)
      → pos ≡ s.pos + length (encode_labels q.labels) + 1
      → take_question buf len ip s pos ≡ ok (some (advance ip s q))
  unfolding take_question
  take_question-encode pos h =
      rw
        (
          le→ltb_false len (pos + 4) (omega (arith, length-encode_question q)),
          read_u16_behind buf behind_name (encode_u16 q.qclass ++ ys) pos q.qtype behind_name-eq
              (omega (arith, length-behind_name)),
          read_u16_behind buf (behind_name ++ encode_u16 q.qtype) ys (pos + 2) q.qclass
              behind_type-eq
              (omega (arith, length-behind_name, length-append behind_name (encode_u16 q.qtype))),
          copy_behind buf xs (encode_question q) ys s.pos (pos + 4) e hp
              (omega (arith, length-encode_question q)),
        )
        (rw (answer_record-reference (length s.response))
          (ground (arith, length-encode_question q, append-nil (encode_question q))))

  skip_terminator-encode :
      (pos : ℕ)
      → pos ≡ s.pos + length (encode_labels q.labels)
      → skip_terminator buf len pos ≡ ok (pos + 1)
  unfolding skip_terminator
  skip_terminator-encode pos h = rw (
    lt→ltb pos len (omega (arith, length-encode_question q)),
    read_behind buf (xs ++ encode_labels q.labels)
        (0 ∷ (encode_u16 q.qtype ++ (encode_u16 q.qclass ++ ys))) pos 0
        (unfold encode_question in (e ∙ simp append_assoc))
        (omega (arith, length-append xs (encode_labels q.labels))),
  )

  pub question_round-encode :
      All IsLabel q.labels
      → len < len + s.pos
      → question_round buf len ip s ≡ ok (some (advance ip s q))
  unfolding question_round end_round
  question_round-encode v hf =
      rw
        (
          skip_labels-encode q.labels len len s.pos buf xs
              (encode_u16 q.qtype ++ (encode_u16 q.qclass ++ ys)) v
              (unfold encode_question in (e ∙ simp append_assoc)) hp
              (omega (arith, length-encode_question q)) hf,
          skip_terminator-encode (s.pos + length (encode_labels q.labels)) refl,
        )
        (take_question-encode (s.pos + length (encode_labels q.labels) + 1) refl)

-- What the whole loop makes of the questions.
abbrev pub advance_all : ℕ → Progress → List Question → Progress
advance_all ip s qs = record {
  pos = s.pos + length (encode_questions qs);
  response = s.response ++ respond ip (length s.response) qs;
  answer_count = s.answer_count + count_addresses qs;
}

advance_all-cons :
    (ip : ℕ) (s : Progress) (q : Question) (qs : List Question)
    → advance_all ip (advance ip s q) qs ≡ advance_all ip s (q ∷ qs)
advance_all-cons ip s q qs = ground (
  arith,
  length-append (encode_question q) (encode_questions qs),
  places,
  append_assoc s.response own (respond ip (length s.response + length own) qs),
)
  where
    own : List ℕ
    own = respond_one ip (length s.response) q

    places :
        respond ip (length (s.response ++ own)) qs ≡ respond ip (length s.response + length own) qs
    places = ap (λ n. respond ip n qs) (length-append s.response own)

pub question_loop-encode :
    (qs : List Question) (ip len : ℕ) (s : Progress) (buf xs ys : List ℕ)
    → All IsQuestion qs
    → buf ≡ xs ++ (encode_questions qs ++ ys)
    → s.pos ≡ length xs
    → 0 < s.pos
    → s.pos + length (encode_questions qs) ≤ len
    → s.answer_count + length qs < 2 ^ 16
    → question_loop (length qs) buf len ip s ≡ ok (some (advance_all ip s qs))
unfolding question_loop
question_loop-encode [] ip len s buf xs ys v e hp h0 hl hc =
    ap (λ t. ok (some t)) (ground (arith, append-nil s.response))
question_loop-encode (q ∷ qs) ip len s buf xs ys v e hp h0 hl hc =
    let width = length-append (encode_question q) (encode_questions qs) in
    let first = length-encode_question q in
    rw
      (
        lt→ltb s.pos len (omega arith),
        question_round-encode ip len s q buf xs (encode_questions qs ++ ys) (e ∙ simp append_assoc)
            hp (omega arith) (omega arith) v.0.0 (omega arith),
      )
      (question_loop-encode qs ip len (advance ip s q) buf (xs ++ encode_question q) ys v.1
          (e ∙ simp append_assoc) (omega (arith, length-append xs (encode_question q)))
          (omega arith) (omega arith) (ground arith)
        ∙ ap (λ t. ok (some t)) (advance_all-cons ip s q qs))
