-- ===== src/Dns/Agree.antt =====
-- `build_dns_response` looks at the bytes received and at nothing behind them.
use webcm.Common.{
  or_fault, get_elem?, ℕ, zero, suc, ◌+◌, ◌-◌, ◌≤◌, ◌<◌, ◌≡◌, refl, sym, ap, ◌∙◌, List, [], ◌∷◌,
  ltb, leb, Bool-cases, fun_ext, ltb→lt, ltb_false→le, le→leb, inl, inr, length, take, drop,
  get_elem?-take, ok, ◌>>=◌, read, arith,
}
use webcm.Dns.Response.{
  Progress, read_u16, copy, skip_labels, skip_terminator, take_question, end_round, question_round,
  question_loop, build_dns_response,
}

-- A copy that ends before the cut is made of bytes before it.
take-drop-take {ℓ} :
    {A : Type ℓ} (xs : List A) (first n len : ℕ)
    → first + n ≤ len
    → take n (drop first (take len xs)) ≡ take n (drop first xs)
take-drop-take xs first zero len h = refl
take-drop-take [] zero (suc n) zero h = refl
take-drop-take [] zero (suc n) (suc len) h = refl
take-drop-take [] (suc first) (suc n) zero h = refl
take-drop-take [] (suc first) (suc n) (suc len) h = refl
take-drop-take (x ∷ xs) zero (suc n) zero h = absurd (omega arith)
take-drop-take (x ∷ xs) zero (suc n) (suc len) h =
    ap (◌∷◌ x) (take-drop-take xs zero n len (omega arith))
take-drop-take (x ∷ xs) (suc first) (suc n) zero h = absurd (omega arith)
take-drop-take (x ∷ xs) (suc first) (suc n) (suc len) h =
    take-drop-take xs first (suc n) len (omega arith)

-- Two buffers with the same bytes up to `len`.
module _ (buf buf' : List ℕ) (len : ℕ) (fits : len ≤ length buf) (fits' : len ≤ length buf')
    (same : take len buf ≡ take len buf') where
  read_same : (i : ℕ) → i < len → read buf i ≡ read buf' i
  unfolding read
  read_same i h = ap or_fault (
      sym (get_elem?-take buf len i h)
      ∙ ap (λ xs. get_elem? xs i) same
      ∙ get_elem?-take buf' len i h)

  read_u16_same : (i : ℕ) → i + 1 < len → read_u16 buf i ≡ read_u16 buf' i
  unfolding read_u16
  read_u16_same i h = rw (read_same i (omega arith), read_same (i + 1) h)

  copy_same : (first last : ℕ) → last ≤ len → copy buf first last ≡ copy buf' first last
  unfolding copy
  copy_same first last k = elim (Bool-cases (leb first last)) [
    | inl up ↦
        let cut : first + (last - first) ≤ len = ground arith in
        rw (up, le→leb last (length buf) (omega arith), le→leb last (length buf') (omega arith))
          (ap ok (
            sym (take-drop-take buf first (last - first) len cut)
            ∙ ap (λ xs. take (last - first) (drop first xs)) same
            ∙ take-drop-take buf' first (last - first) len cut))
    | inr down ↦ rw down
  ]

  skip_labels_same : (fuel pos : ℕ) → skip_labels fuel buf len pos ≡ skip_labels fuel buf' len pos
  unfolding skip_labels
  skip_labels_same zero pos = refl
  skip_labels_same (suc fuel) pos = elim (Bool-cases (ltb pos len)) [
    | inl more ↦
        rw (more, read_same pos (ltb→lt pos len more))
          (ap (λ k. read buf' pos >>= k) (fun_ext λ b. rw (skip_labels_same fuel (pos + (b + 1)))))
    | inr less ↦ rw less
  ]

  skip_terminator_same : (pos : ℕ) → skip_terminator buf len pos ≡ skip_terminator buf' len pos
  unfolding skip_terminator
  skip_terminator_same pos = elim (Bool-cases (ltb pos len)) [
    | inl more ↦ rw (more, read_same pos (ltb→lt pos len more))
    | inr less ↦ rw less
  ]

  take_question_same :
      (ip : ℕ) (s : Progress) (pos : ℕ)
      → take_question buf len ip s pos ≡ take_question buf' len ip s pos
  unfolding take_question
  take_question_same ip s pos = elim (Bool-cases (ltb len (pos + 4))) [
    | inl over ↦ rw over
    | inr room ↦
        let room' = ltb_false→le len (pos + 4) room in
        rw (
          room,
          read_u16_same pos (omega arith),
          read_u16_same (pos + 2) (omega arith),
          copy_same s.pos (pos + 4) room',
        )
  ]

  end_round_same :
      (ip : ℕ) (s : Progress) (name_end : ℕ)
      → end_round buf len ip s name_end ≡ end_round buf' len ip s name_end
  unfolding end_round
  end_round_same ip s name_end =
      rw (skip_terminator_same name_end, fun_ext (take_question_same ip s))

  question_round_same :
      (ip : ℕ) (s : Progress) → question_round buf len ip s ≡ question_round buf' len ip s
  unfolding question_round
  question_round_same ip s = rw (skip_labels_same len s.pos, fun_ext (end_round_same ip s))

  question_loop_same :
      (ip rounds : ℕ) (s : Progress)
      → question_loop rounds buf len ip s ≡ question_loop rounds buf' len ip s
  unfolding question_loop
  question_loop_same ip zero s = refl
  question_loop_same ip (suc rounds) s =
      rw (question_round_same ip s, fun_ext (question_loop_same ip rounds))

  -- Two buffers that agree on the bytes received, a header at least, get the same response.
  pub build_dns_response_same :
      (ip : ℕ) → 12 ≤ len → build_dns_response buf len ip ≡ build_dns_response buf' len ip
  unfolding build_dns_response
  build_dns_response_same ip h =
      rw (read_u16_same 2 (omega arith), read_u16_same 4 (omega arith), copy_same 0 12 h)
        (simp (question_loop_same ip))
