-- ===== src/Cert/Leaf/Unpushed.antt =====
-- The name of a host that the stack does not take.
use webcm.Common.{ℕ, ◌+◌, ◌≡◌, ap, refl, ◌∙◌, List, [], true, false, Option, none, ok}
use webcm.Cert.Heap.{
  sk_general_name_push, general_name_new, asn1_string_new, asn1_string_set, Env, Heap, occurs,
}
use webcm.Cert.Rules.{
  Runs, Runs-pure, Runs-bind, Runs-option, Runs-bool, impossible, Owns, ask-Runs, create-Runs,
  try-Runs,
}
use webcm.Cert.Create.{GeneralName, alt_name}

module _ (env : Env) (makes : (n : ℕ) → env.answers general_name_new n ≡ true)
    (makes_string : (n : ℕ) → env.answers asn1_string_new n ≡ true)
    (full : (n : ℕ) → env.answers sk_general_name_push n ≡ false) (f : ℕ → ℕ)
    (hostname : List ℕ) where
  -- Nothing is given back, and these two objects are alive.
  abbrev Leaks : Option GeneralName → Heap → Type 0
  Leaks o h =
      (o ≡ none) × (san : ℕ) × (string : ℕ) × Owns (λ k. occurs string k + (occurs san k + f k)) h

  unpushed-Runs : {h : Heap} → Owns f h → Runs Leaks (alt_name env hostname) h
  unfolding alt_name
  unpushed-Runs {h} v =
      Runs-option _ (create-Runs env general_name_new v) (λ h1 w. impossible (makes h.asked) w.1)
        λ san h1 w.
          Runs-option _ (create-Runs env asn1_string_new w.0)
            (λ h2 x. impossible (makes_string h1.asked) x.1)
            λ string h2 x.
              Runs-bind (try-Runs env asn1_string_set (λ t. hostname) [] x.0) λ text h3 y.
                Runs-bool _ (ask-Runs env sk_general_name_push y.0)
                  (λ h4 z. Runs-pure none h4 (refl, san, string, z.0))
                  λ h4 z. impossible z.1 (full h3.asked)

  -- If the name and its string are made, and the stack does not take the name, the alternative name of a
  -- host gives nothing back to be released, and leaves two objects more alive than there were.
  pub alt_name_leak :
      (h : Heap)
      → Owns f h
      → (h' : Heap) × (san : ℕ) × (string : ℕ) × (alt_name env hostname h ≡ ok (none, h'))
        × Owns (λ k. occurs string k + (occurs san k + f k)) h'
  alt_name_leak h v =
      let r = unpushed-Runs v in
      (r.after, r.holds.1, r.holds.2, r.returns ∙ ap (λ o. ok (o, r.after)) r.holds.0, r.holds.3)
