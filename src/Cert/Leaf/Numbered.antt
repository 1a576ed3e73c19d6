-- ===== src/Cert/Leaf/Numbered.antt =====
-- The random serial number of a certificate.
use webcm.Common.{ℕ, ◌+◌, ◌≡◌, refl, sym, ◌∙◌, ap, Option, none, some, arith}
use webcm.Cert.Heap.{
  x509_set_serial, rand_bytes, bn_bin2bn, asn1_integer_new, bn_to_asn1_integer, Env, Heap, occurs,
  serial,
}
use webcm.Cert.Rules.{
  Runs, Runs-pure, Runs-bind, Runs-option, Runs-bool, impossible, Owns, Owns-same, ask-Runs,
  free-Runs, Succeeds, create-Runs, try-Runs,
}
use webcm.Cert.Objects.{Certificate, X509, Key}
use webcm.Cert.Create.{give_up, random_serial}
use webcm.Cert.Steps.{IsBuilt, try_content-Runs}

serial-Runs :
    {f : ℕ → ℕ} {h : Heap} (env : Env)
    → Owns f h
    → Runs (λ s h'. Owns f h' × ((n : ℕ) × (s ≡ env.random_serial n))) (serial env) h
unfolding serial
serial-Runs {h = h} env v = record {
  value = env.random_serial h.asked;
  after = h;
  returns = refl;
  holds = (v, (h.asked, refl));
}

-- The certificate has a number, or it and the key are released.
abbrev pub IsNumbered : Env → (ℕ → ℕ) → ℕ → Certificate → Key → Option X509 → Heap → Type 0
IsNumbered env f id c key none h = Owns f h × (Succeeds env → ⊥)
IsNumbered env f id c key (some cert) h =
    Owns (λ k. occurs id k + (occurs key.id k + f k)) h
    × ((n : ℕ) × IsBuilt env id (record c { serial = env.random_serial n }) cert)

module _ (env : Env) (f : ℕ → ℕ) {id : ℕ} {c : Certificate} (cert : X509) (key : Key)
    (built : IsBuilt env id c cert) where
  give_up-Runs :
      (h : Heap)
      → Owns (λ k. occurs id k + (occurs key.id k + f k)) h
      → (Succeeds env → ⊥)
      → Runs (IsNumbered env f id c key) (give_up env cert key) h
  give_up-Runs h v failed =
      Runs-bind
        (free-Runs {g = λ k. occurs key.id k + f k} cert.id v
          (λ k. ap (λ i. occurs i k + (occurs key.id k + f k)) (sym built.same_id)))
        λ u h1 w.
          Runs-bind (free-Runs {g = f} key.id w (λ k. refl)) λ u h2 x. Runs-pure none h2 (x, failed)

  pub random_serial-Runs :
      (h : Heap)
      → Owns (λ k. occurs id k + (occurs key.id k + f k)) h
      → Runs (IsNumbered env f id c key) (random_serial env cert key) h
  unfolding random_serial
  random_serial-Runs h v =
      let base = λ (k : ℕ). occurs id k + (occurs key.id k + f k) in
      Runs-bool _ (ask-Runs env rand_bytes v)
        (λ h1 w. give_up-Runs h1 w.0 (λ all. impossible (all rand_bytes h.asked) w.1))
        λ h1 w. Runs-bind (serial-Runs env w.0) λ number h2 x.
          Runs-option _ (create-Runs env bn_bin2bn x.0)
            (λ h3 y.
              give_up-Runs h3 (Owns-same y.0 (λ k. omega arith))
                (λ all. impossible (all bn_bin2bn h2.asked) y.1))
            λ bn h3 y.
              Runs-option _ (create-Runs env asn1_integer_new y.0)
                (λ h4 z. Runs-bind (free-Runs {g = base} bn z.0 (λ k. omega arith)) λ u h5 q.
                  give_up-Runs h5 q (λ all. impossible (all asn1_integer_new h3.asked) z.1))
                λ integer h4 z.
                  Runs-bind (try-Runs env bn_to_asn1_integer (λ t. number) 0 z.0) λ value h5 q.
                    Runs-bind
                      (free-Runs {g = λ k. occurs integer k + base k} bn q.0 (λ k. omega arith))
                      λ u h6 r.
                        Runs-bind
                          (try_content-Runs env x509_set_serial (λ c. record c { serial = value })
                            cert (r, built))
                          λ cert' h7 s.
                            Runs-bind (free-Runs {g = base} integer s.0 (λ k. omega arith))
                              λ u h8 t. Runs-pure (some cert') h8 (
                                t,
                                (
                                  x.1.0,
                                  record {
                                    same_id = s.1.same_id;
                                    content = λ all.
                                        s.1.content all
                                        ∙ ap (λ (n : ℕ). record c { serial = n }) (q.2 all ∙ x.1.1);
                                  },
                                ),
                              )
