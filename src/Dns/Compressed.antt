-- ===== src/Dns/Compressed.antt =====
-- A question whose name is a compression pointer: it has no null byte at its end, and the byte that
-- `build_dns_response` skips as one is the first byte of the question's type.
use webcm.Common.{
  ℕ, zero, suc, ◌+◌, ◌*◌, ◌≤◌, ◌<◌, ◌≡◌, refl, List, [], ◌∷◌, ◌++◌, lt→ltb, none, some, length,
  length-append, ok, bit_and, arith,
}
use webcm.Dns.Query.{Question, IsQuestion, Header, encode_question}
use webcm.Dns.Response.{
  Progress, skip_labels, skip_terminator, take_question, question_round, question_loop,
  build_dns_response,
}
use webcm.Dns.Exact.{advance, question_round-encode, read_behind, copy_behind}
use webcm.Dns.Exact.Whole.{header_bytes, start}

-- Type A and class IN behind a pointer, at the end of the message.
abbrev pointer_question : ℕ → ℕ → List ℕ
pointer_question high low = high ∷ low ∷ 0 ∷ 1 ∷ 0 ∷ 1 ∷ []

abbrev pub compressed_query : Header → Question → ℕ → ℕ → List ℕ
compressed_query h q high low = header_bytes h 2 ++ (encode_question q ++ pointer_question high low)

module _ (ip high low len : ℕ) (s : Progress) (buf xs : List ℕ) (big : 192 ≤ high)
    (e : buf ≡ xs ++ pointer_question high low) (hp : s.pos ≡ length xs) (h0 : 0 < s.pos)
    (hl : len ≡ s.pos + 6) where
  skip_pointer : (fuel : ℕ) → 0 < fuel → skip_labels fuel buf len s.pos ≡ ok (some (s.pos + 2))
  unfolding skip_labels
  skip_pointer zero h = absurd (omega arith)
  skip_pointer (suc fuel) h =
      rw
        (
          lt→ltb s.pos len (omega arith),
          read_behind buf xs (pointer_question high low) s.pos 0 e (omega arith),
        )
        (ground arith)

  skip_type_byte : skip_terminator buf len (s.pos + 2) ≡ ok (s.pos + 2 + 1)
  unfolding skip_terminator
  skip_type_byte = rw (
    lt→ltb (s.pos + 2) len (omega arith),
    read_behind buf xs (pointer_question high low) (s.pos + 2) 2 e (omega arith),
  )

  overrun : take_question buf len ip s (s.pos + 2 + 1) ≡ ok none
  unfolding take_question
  overrun = rw (lt→ltb len (s.pos + 2 + 1 + 4) (omega arith))

  pointer_round : question_round buf len ip s ≡ ok none
  unfolding question_round
  pointer_round = rw (skip_pointer len (omega arith), skip_type_byte) overrun

two_rounds :
    (h : Header) (q : Question) (high low ip len : ℕ)
    → IsQuestion q
    → 192 ≤ high
    → len ≡ 12 + length (encode_question q) + 6
    → question_loop 2 (compressed_query h q high low) len ip (start h 2) ≡ ok none
unfolding question_loop
two_rounds h q high low ip len v big hl =
    let buf : List ℕ = compressed_query h q high low in
    let tail : List ℕ = pointer_question high low in
    let s : Progress = start h 2 in
    rw (
      lt→ltb 12 len (omega arith),
      question_round-encode ip len s q buf (header_bytes h 2) tail refl refl (omega arith)
          (omega arith) v.0 (omega arith),
      lt→ltb (12 + length (encode_question q)) len (omega arith),
      pointer_round ip high low len (advance ip s q) buf (header_bytes h 2 ++ encode_question q) big
          refl (omega arith) (omega arith) hl,
    )

-- A query with a second question whose name is a pointer, type A and class IN, gets no response at
-- all, not for its first question either.
pub compressed_query_dropped :
    (h : Header) (q : Question) (high low ip : ℕ)
    → bit_and (h.flags_high * 256 + h.flags_low) 0x7800 ≡ 0
    → IsQuestion q
    → 192 ≤ high
    → build_dns_response (compressed_query h q high low) (length (compressed_query h q high low)) ip
      ≡ ok []
unfolding build_dns_response
compressed_query_dropped h q high low ip op v big =
    let query : List ℕ = compressed_query h q high low in
    let tail : List ℕ = pointer_question high low in
    rw (
      op,
      copy_behind query [] (header_bytes h 2) (encode_question q ++ tail) 0 12 refl refl refl,
      two_rounds h q high low ip (length query) v big
          (omega (arith, length-append (encode_question q) tail)),
    )
