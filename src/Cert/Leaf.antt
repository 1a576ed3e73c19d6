-- ===== src/Cert/Leaf.antt =====
-- The alternative name of a certificate for a host.
pub mod Numbered
pub mod Issued
pub mod Unpushed
use webcm.Common.{
  ℕ, ◌+◌, ◌≡◌, refl, sym, ◌∙◌, ap, List, [], ◌∷◌, ◌++◌, Bool, true, false, Option, none, some, ok,
  arith,
}
use webcm.Cert.Heap.{
  Call, x509_new, x509_set_version, x509_set_serial, x509_set_issuer_name, x509_set_subject_name,
  x509_set_pubkey, x509v3_ext_i2d, rand_bytes, bn_bin2bn, asn1_integer_new, bn_to_asn1_integer,
  sk_general_name_new, sk_general_name_push, general_name_new, asn1_string_new, asn1_string_set,
  Env, Heap, Action, pure, ◌>>=◌, ◌>>◌, occurs, free, create, ask, serial,
}
use webcm.Cert.Rules.{
  Runs, Runs-pure, Runs-bind, Runs-mono, Runs-option, Runs-bool, impossible, Owns, Owns-same,
  ask-Runs, free-Runs, occurs_some, is_some, Succeeds, create-Runs, try-Runs,
}
use webcm.Cert.Objects.{
  subject_alt_name, Certificate, blank, X509, Key, host_name, set_subject, set_issuer, CertPair,
  no_pair, CertStore, cert_id, key_id, generate_key,
}
use webcm.Cert.Create.{
  GeneralName, texts, pop_free, alt_name, with_string, add_alt_name, named, host_named, give_up,
  with_integer, with_bignum, with_bytes, random_serial, fill_host, sign, host_pair, host_signed,
  host_with_cert, host_with_key, create_cert_for_host,
}
use webcm.Cert.Steps.{
  IsBuilt, Keeps, generate_key-Runs, try_content-Runs, set_name-Runs, add_extension-Runs,
  named-Runs, IsSigned, sign-Runs,
}
use webcm.Cert.Authority.{held_pair, set_validity-Runs}

-- The stack takes the names that it is given.
abbrev pub Pushes : Env → Type 0
Pushes env = (n : ℕ) → env.answers sk_general_name_push n ≡ true

abbrev pub occurs_name : Option GeneralName → ℕ → ℕ
occurs_name none k = 0
occurs_name (some san) k = occurs san.string_id k + occurs san.id k

module _ (env : Env) (pushes : Pushes env) where
  -- The name of the host is in the stack, with its string, if no call fails.
  alt_name-Runs :
      {f : ℕ → ℕ} {h : Heap} (hostname : List ℕ)
      → Owns f h
      → Runs
          (λ o h'. Owns (λ k. occurs_name o k + f k) h' × (Succeeds env → texts o ≡ hostname ∷ []))
          (alt_name env hostname)
          h
  unfolding alt_name
  alt_name-Runs {f} {h} hostname v =
      Runs-option _ (create-Runs env general_name_new v)
        (λ h1 w.
          Runs-pure none h1 (
            Owns-same w.0 (λ k. omega arith),
            λ all. impossible (all general_name_new h.asked) w.1,
          ))
        λ san h1 w.
          Runs-option _ (create-Runs env asn1_string_new w.0)
            (λ h2 x. Runs-bind (free-Runs {g = f} san x.0 (λ k. omega arith)) λ u h3 y.
              Runs-pure none h3 (
                Owns-same y (λ k. omega arith),
                λ all. impossible (all asn1_string_new h1.asked) x.1,
              ))
            λ string h2 x.
              Runs-bind (try-Runs env asn1_string_set (λ t. hostname) [] x.0) λ text h3 y.
                Runs-bool _ (ask-Runs env sk_general_name_push y.0)
                  (λ h4 z. impossible (pushes h3.asked) z.1)
                  λ h4 z.
                    Runs-pure _ h4
                      (Owns-same z.0 (λ k. omega arith), λ all. ap (λ t. t ∷ []) (y.2 all))

  pop_free-Runs :
      {f : ℕ → ℕ} (stack : ℕ) (o : Option GeneralName) (h : Heap)
      → Owns (λ k. occurs_name o k + (occurs stack k + f k)) h
      → Runs (λ u h'. Owns f h') (pop_free stack o) h
  unfolding pop_free
  pop_free-Runs {f} stack none h v = free-Runs {g = f} stack v (λ k. omega arith)
  pop_free-Runs {f} stack (some san) h v =
      Runs-bind
        (free-Runs {g = λ k. occurs san.id k + (occurs stack k + f k)} san.string_id v
          (λ k. omega arith))
        λ u h1 w.
          Runs-bind (free-Runs {g = λ k. occurs stack k + f k} san.id w (λ k. omega arith))
            λ u h2 x. free-Runs {g = f} stack x (λ k. omega arith)

  pub add_alt_name-Runs :
      {f : ℕ → ℕ} {id : ℕ} {c : Certificate} {h : Heap} (hostname : List ℕ) (cert : X509)
      → Keeps env f id c cert h
      → Runs
          (Keeps env f id
            (record c { extensions = c.extensions ++ (subject_alt_name (hostname ∷ []) ∷ []) }))
          (add_alt_name env hostname cert)
          h
  unfolding add_alt_name
  add_alt_name-Runs {f} {c = c} {h = h} hostname cert v =
      Runs-option _ (create-Runs env sk_general_name_new v.0)
        (λ h1 w. Runs-pure cert h1 (
          Owns-same w.0 (λ k. omega arith),
          record {
            same_id = v.1.same_id;
            content = λ all. impossible (all sk_general_name_new h.asked) w.1;
          },
        ))
        λ stack h1 w. Runs-bind (alt_name-Runs hostname w.0) λ san h2 x.
          Runs-bind
            (add_extension-Runs env x509v3_ext_i2d (subject_alt_name (texts san)) cert (x.0, v.1))
            λ cert' h3 y. Runs-bind (pop_free-Runs {f = f} stack san h3 y.0) λ u h4 z.
              Runs-pure cert' h4 (
                z,
                record {
                  same_id = y.1.same_id;
                  content = λ all.
                      y.1.content all
                      ∙ ap
                          (λ t. record c { extensions = c.extensions ++ (subject_alt_name t ∷ []) })
                          (x.1 all);
                },
              )
