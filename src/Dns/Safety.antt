-- ===== src/Dns/Safety.antt =====
-- `build_dns_response` stays inside the buffer and ends.
use webcm.Common.{
  max, ℕ, zero, suc, ◌+◌, ◌-◌, ◌*◌, ◌≤◌, ◌<◌, ◌≡◌, List, ◌++◌, ltb, leb, le→leb, ◌==◌, Bool-cases,
  ltb→lt, ltb_false→le, inl, inr, refl, ◌∙◌, some, length, length-append, length-take, length-drop,
  length-set, take, drop, ok, read_lt, Ends, Ends-and_then, Ends-mono, Ends-cases, le→ltb_false,
  ◌⊎◌, bit_and, not, ◌||◌, [], arith,
}
use webcm.Dns.Response.{
  Progress, read_u16, copy, skip_labels, skip_terminator, answer_record, take_question, end_round,
  question_round, question_loop, response_header, finish, build_dns_response,
}

-- The bytes received fit the buffer.
abbrev header_start : List ℕ → Progress
unfolding response_header
header_start header = record { pos = 12; response = response_header header; answer_count = 0 }

length-response_header : (xs : List ℕ) → length (response_header xs) ≡ length xs
unfolding response_header
length-response_header xs = simp length-set

length-finish : (s : Progress) → length (finish (some s)) ≡ length s.response
unfolding finish
length-finish s = simp length-set

pub question_loop_past :
    (buf : List ℕ) (len ip rounds : ℕ) (s : Progress)
    → len ≤ s.pos
    → question_loop rounds buf len ip s ≡ ok (some s)
unfolding question_loop
question_loop_past buf len ip zero s h = refl
question_loop_past buf len ip (suc rounds) s h = rw (le→ltb_false s.pos len h)

module _ (buf : List ℕ) (len : ℕ) (fits : len ≤ length buf) where
  pub read_u16_lt : (i : ℕ) → i + 1 < length buf → (x : ℕ) × (read_u16 buf i ≡ ok x)
  unfolding read_u16
  read_u16_lt i h =
      let (a, e) = read_lt buf i (omega arith) in
      let (b, e') = read_lt buf (i + 1) h in (a * 256 + b, rw (e, e'))

  skip_labels-Ends :
      (lo fuel pos : ℕ)
      → lo ≤ pos
      → pos ≤ len
      → len < fuel + pos
      → Ends (λ p. lo ≤ p) (skip_labels fuel buf len pos)
  unfolding skip_labels
  skip_labels-Ends lo zero pos l u h = absurd (omega arith)
  skip_labels-Ends lo (suc fuel) pos l u h = elim (Bool-cases (ltb pos len)) [
    | inl more ↦
        let (b, e) = read_lt buf pos (omega (arith, ltb→lt pos len more)) in
        rw (more, e) (ground (arith, skip_labels-Ends lo fuel (pos + (b + 1))))
    | inr less ↦ rw less l
  ]

  skip_terminator_ge : (pos : ℕ) → (p : ℕ) × (skip_terminator buf len pos ≡ ok p) × (pos ≤ p)
  unfolding skip_terminator
  skip_terminator_ge pos = elim (Bool-cases (ltb pos len)) [
    | inl more ↦
        let (b, e) = read_lt buf pos (omega (arith, ltb→lt pos len more)) in
        rw (more, e) (_, refl, ground arith)
    | inr less ↦ rw less (pos, refl, omega arith)
  ]

  -- A copy out of the bytes received.
  copy_within :
      (first last : ℕ)
      → first ≤ last
      → last ≤ length buf
      → (xs : List ℕ) × (copy buf first last ≡ ok xs) × (length xs ≡ last - first)
  unfolding copy
  copy_within first last h k =
      rw (le→leb first last h, le→leb last (length buf) k)
        (
          take (last - first) (drop first buf),
          refl,
          omega (arith, length-take (last - first) (drop first buf), length-drop first buf),
        )

  -- What holds between two rounds: the response has a header, and grows by five bytes at most for
  -- each byte of the query.
  record Inv (s : Progress) : Type 0 where
    pub from : 12 ≤ s.pos
    pub upto : s.pos ≤ len
    pub headed : 12 ≤ length s.response
    pub sized : length s.response + 48 ≤ 5 * s.pos

  take_question-Inv :
      (ip : ℕ) (s : Progress) (pos : ℕ)
      → Inv s
      → s.pos ≤ pos
      → Ends Inv (take_question buf len ip s pos)
  unfolding take_question
  take_question-Inv ip s pos v h = elim (Bool-cases (ltb len (pos + 4))) [
    | inl over ↦ rw over tt
    | inr room ↦
        let (t, et) = read_u16_lt pos (omega (arith, ltb_false→le len (pos + 4) room)) in
        let (c, ec) = read_u16_lt (pos + 2) (omega (arith, ltb_false→le len (pos + 4) room)) in
        let (q, eq, n) =
          copy_within s.pos (pos + 4) (omega arith)
            (omega (arith, ltb_false→le len (pos + 4) room)) in
        rw (room, et, ec, eq)
          (ground (
            arith,
            length-append s.response q,
            length-append s.response (q ++ answer_record (length s.response) ip),
            length-append q (answer_record (length s.response) ip),
          ))
  ]

  end_round-Inv :
      (ip : ℕ) (s : Progress) (name_end : ℕ)
      → Inv s
      → s.pos ≤ name_end
      → Ends Inv (end_round buf len ip s name_end)
  unfolding end_round
  end_round-Inv ip s name_end v h =
      let (p, e, g) = skip_terminator_ge name_end in rw e (take_question-Inv ip s p v (omega arith))

  question_round-Inv : (ip : ℕ) (s : Progress) → Inv s → Ends Inv (question_round buf len ip s)
  unfolding question_round
  question_round-Inv ip s v =
      Ends-and_then (λ p. s.pos ≤ p) Inv (skip_labels len buf len s.pos) (end_round buf len ip s)
        (skip_labels-Ends s.pos len s.pos (omega arith) (omega arith) (omega arith))
        (λ p. end_round-Inv ip s p v)

  question_loop-Inv :
      (ip rounds : ℕ) (s : Progress) → Inv s → Ends Inv (question_loop rounds buf len ip s)
  unfolding question_loop
  question_loop-Inv ip zero s v = v
  question_loop-Inv ip (suc rounds) s v = elim (Bool-cases (ltb s.pos len)) [
    | inl more ↦ rw more (
        Ends-and_then Inv Inv (question_round buf len ip s) (question_loop rounds buf len ip)
          (question_round-Inv ip s v) (λ a. question_loop-Inv ip rounds a))
    | inr less ↦ rw less v
  ]

  -- Also with fewer bytes than a header, when no round runs.
  abbrev Sized : Progress → Type 0
  Sized s = (12 ≤ length s.response) × (length s.response + 48 ≤ 5 * max 12 len)

  question_loop-Sized :
      (ip rounds : ℕ) (s : Progress)
      → s.pos ≡ 12
      → length s.response ≡ 12
      → Ends Sized (question_loop rounds buf len ip s)
  question_loop-Sized ip rounds s p h = elim (Bool-cases (leb 12 len)) [
    | inl full ↦
        Ends-mono Inv Sized (question_loop rounds buf len ip s) (λ t v. omega arith)
          (question_loop-Inv ip rounds s (ground arith))
    | inr short ↦ rw (question_loop_past buf len ip rounds s (ground arith)) (omega arith)
  ]

  -- On every input that fits its buffer the function returns, with no read out of bounds and no
  -- endless loop; its result is empty, or holds a header and at most five bytes for each one read.
  pub build_dns_response_safe :
      (ip : ℕ)
      → 12 ≤ length buf
      → (r : List ℕ) × (build_dns_response buf len ip ≡ ok r)
        × ((r ≡ []) ⊎ ((12 ≤ length r) × (length r + 48 ≤ 5 * max 12 len)))
  unfolding build_dns_response
  build_dns_response_safe ip big =
      let (flags, ef) = read_u16_lt 2 (omega arith) in
      let (questions, eq) = read_u16_lt 4 (omega arith) in
      let (header, eh, n) = copy_within 0 12 (omega arith) big in
      rw (ef, eq)
        (elim (Bool-cases (not (bit_and flags 0x7800 == 0) || questions == 0)) [
          | inl refused ↦ rw refused ([], refl, inl refl)
          | inr taken ↦
              rw (taken, eh)
                (elim (Ends-cases Sized _ (
                  question_loop-Sized ip questions (header_start header) refl
                    (length-response_header header ∙ n))) [
                      | inl left ↦ rw left ([], refl, inl refl)
                      | inr (s, e, w) ↦ rw e (finish (some s), refl, inr (rw (length-finish s) w))
                    ])
        ])
