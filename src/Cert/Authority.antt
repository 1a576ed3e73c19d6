-- ===== src/Cert/Authority.antt =====
-- What `create_ca` does to the store, and to the references.
use webcm.Common.{
  ℕ, ◌+◌, ◌≡◌, refl, sym, ap, List, [], ◌∷◌, Bool, true, false, Option, none, some, ok, arith,
}
use webcm.Cert.Heap.{
  x509_new, x509_set_version, x509_set_serial, x509_set_not_before, x509_set_not_after,
  x509_set_subject_name, x509_set_issuer_name, x509_set_pubkey, x509v3_ext_conf_nid, Env, Heap,
  ◌>>=◌, occurs, create,
}
use webcm.Cert.Rules.{
  Runs, Runs-pure, Runs-bind, Runs-option, impossible, Owns, Owns-same, free-Runs, free_some-Runs,
  occurs_some, Succeeds, create-Runs,
}
use webcm.Cert.Objects.{
  Name, basic_constraints, key_usage, Certificate, blank, X509, Key, ca_name, set_subject,
  set_issuer, CertPair, CertStore, cert_id, key_id, reset_ca,
}
use webcm.Cert.Create.{ca_named, set_validity, fill_ca, ca_signed, ca_with_cert, create_ca}
use webcm.Cert.Steps.{
  Keeps, generate_key-Runs, try_content-Runs, set_name-Runs, add_extension-Runs, named-Runs,
  IsSigned, sign-Runs,
}

-- The references that a pair holds, and those of the members of a store.
abbrev pub held_pair : CertPair → ℕ → ℕ
held_pair pair k = occurs_some (cert_id pair.cert) k + occurs_some (key_id pair.key) k

abbrev pub cached : List (List ℕ × CertPair) → ℕ → ℕ
cached [] k = 0
cached ((hostname, pair) ∷ cache) k = held_pair pair k + cached cache k

abbrev pub held : CertStore → ℕ → ℕ
held s k =
    occurs_some (cert_id s.ca_cert) k + (occurs_some (key_id s.ca_key) k + cached s.cert_cache k)

-- The certificate of a CA with this secret: version 3, serial number 1, ten years, signed by itself.
abbrev pub ca_certificate : ℕ → ℕ → Certificate
ca_certificate now secret = record {
  version = 2;
  serial = 1;
  not_before = now;
  not_after = now + 315360000;
  subject = ca_name;
  issuer = ca_name;
  public_key = some secret;
  extensions = basic_constraints ∷ key_usage ∷ [];
  signed_by = some secret;
}

module _ (env : Env) where
  ca_named-Runs :
      {f : ℕ → ℕ} {id : ℕ} {c : Certificate} {h : Heap} (n : Name) (o : Option Name) (cert : X509)
      → (Succeeds env → o ≡ some n)
      → Keeps env f id c cert h
      → Runs (Keeps env f id (record c { subject = n; issuer = n })) (ca_named env o cert) h
  unfolding ca_named
  ca_named-Runs n o cert e v =
      Runs-bind (set_name-Runs env x509_set_subject_name set_subject n o cert e v)
        λ cert' h1 w. set_name-Runs env x509_set_issuer_name set_issuer n o cert' e w

  pub set_validity-Runs :
      {f : ℕ → ℕ} {id : ℕ} {c : Certificate} {h : Heap} (now seconds : ℕ) (cert : X509)
      → Keeps env f id c cert h
      → Runs
          (Keeps env f id (record c { not_before = now; not_after = now + seconds }))
          (set_validity env now seconds cert)
          h
  unfolding set_validity
  set_validity-Runs now seconds cert v =
      Runs-bind (try_content-Runs env x509_set_not_before _ cert v)
        λ cert' h1 w. try_content-Runs env x509_set_not_after _ cert' w

  fill_ca-Runs :
      {f : ℕ → ℕ} {id : ℕ} {h : Heap} (now : ℕ) (key : Key) (cert : X509)
      → Keeps env f id blank cert h
      → Runs
          (Keeps env f id (record (ca_certificate now key.secret) { signed_by = none }))
          (fill_ca env now key cert)
          h
  unfolding fill_ca
  fill_ca-Runs now key cert v =
      Runs-bind (try_content-Runs env x509_set_version _ cert v) λ cert h v.
        Runs-bind (try_content-Runs env x509_set_serial _ cert v) λ cert h v.
          Runs-bind (set_validity-Runs now 315360000 cert v) λ cert h v.
            Runs-bind
              (named-Runs env ca_name (ca_named env)
                (λ c. record c { subject = ca_name; issuer = ca_name }) cert
                (λ g h o e w. ca_named-Runs ca_name o cert e w) v)
              λ cert h v. Runs-bind (try_content-Runs env x509_set_pubkey _ cert v) λ cert h v.
                Runs-bind (add_extension-Runs env x509v3_ext_conf_nid basic_constraints cert v)
                  λ cert h v. add_extension-Runs env x509v3_ext_conf_nid key_usage cert v

-- What `create_ca` leaves: the store as it was, or with a certificate in it that its key has signed, and
-- which is the CA's if no call fails.
pub record IsMade (env : Env) (now : ℕ) (s s' : CertStore) : Type 0 where
  pub cert : X509
  pub key : Key
  pub store : s' ≡ record s { ca_cert = some cert; ca_key = some key }
  pub self_signed : cert.content.signed_by ≡ some key.secret
  pub content : Succeeds env → cert.content ≡ ca_certificate now key.secret

abbrev pub IsCreated : Env → ℕ → CertStore → Bool → CertStore → Type 0
IsCreated env now s false s' = (s' ≡ s) × (Succeeds env → ⊥)
IsCreated env now s true s' = IsMade env now s s'

abbrev Created : Env → ℕ → (ℕ → ℕ) → CertStore → Bool × CertStore → Heap → Type 0
Created env now f s (b, s') h = Owns (λ k. held s' k + f k) h × IsCreated env now s b s'

module _ (env : Env) (now : ℕ) (f : ℕ → ℕ) (s : CertStore) where
  -- The old certificate and key are released.
  pub reset_ca-Runs :
      {h : Heap} (cert : X509) (key : Key)
      → Owns (λ k. occurs cert.id k + (occurs key.id k + (held s k + f k))) h
      → Runs
          (λ s' h'.
            Owns (λ k. held s' k + f k) h'
            × (s' ≡ record s { ca_cert = some cert; ca_key = some key }))
          (reset_ca cert key s)
          h
  unfolding reset_ca
  reset_ca-Runs cert key v =
      let kept = λ (k : ℕ). occurs cert.id k + (occurs key.id k + (cached s.cert_cache k + f k)) in
      Runs-bind
        (free_some-Runs {g = λ k. occurs_some (key_id s.ca_key) k + kept k} (cert_id s.ca_cert) v
          (λ k. omega arith))
        λ u h1 w.
          Runs-bind (free_some-Runs {g = kept} (key_id s.ca_key) w (λ k. omega arith))
            λ u h2 x. Runs-pure _ h2 (Owns-same x (λ k. omega arith), refl)

  ca_signed-Runs :
      (id : ℕ) (key : Key) (o : Option X509) (h : Heap)
      → IsSigned env
          (λ k. held s k + f k)
          id
          (record (ca_certificate now key.secret) { signed_by = none })
          key
          key
          o
          h
      → Runs (Created env now f s) (ca_signed env s key o) h
  ca_signed-Runs id key none h v = Runs-pure (false, s) h (v.0, (refl, v.1))
  ca_signed-Runs id key (some cert) h v =
      Runs-bind
        (reset_ca-Runs cert key (
          Owns-same v.0
            (λ k. ap (λ i. occurs i k + (occurs key.id k + (held s k + f k))) (sym v.1.same_id))))
        λ s' h1 w.
          Runs-pure (true, s') h1
            (
              w.0,
              record {
                cert = cert;
                key = key;
                store = w.1;
                self_signed = v.2;
                content = v.1.content;
              },
            )

  with_cert-Runs :
      (key : Key) (h : Heap)
      → Owns (λ k. occurs key.id k + (held s k + f k)) h
      → Runs (Created env now f s) (create env x509_new >>= ca_with_cert env now s key) h
  with_cert-Runs key h v =
      Runs-option _ (create-Runs env x509_new v)
        (λ h1 w.
          Runs-bind (free-Runs {g = λ k. held s k + f k} key.id w.0 (λ k. omega arith)) λ u h2 x.
            Runs-pure (false, s) h2 (x, (refl, λ all. impossible (all x509_new h.asked) w.1)))
        λ id h1 w.
          Runs-bind
            (fill_ca-Runs env now key (record { id = id; content = blank })
              (w.0, record { same_id = refl; content = λ all. refl }))
            λ cert h2 x.
              Runs-bind (sign-Runs env (λ k. held s k + f k) key key cert x)
                λ signed h3 y. ca_signed-Runs id key signed h3 y

  pub create_ca-Runs :
      {h : Heap}
      → Owns (λ k. held s k + f k) h
      → Runs
          (λ r h'. Owns (λ k. held r.1 k + f k) h' × IsCreated env now s r.0 r.1)
          (create_ca env now s)
          h
  unfolding create_ca
  create_ca-Runs v =
      Runs-option _ (generate_key-Runs env v)
        (λ h1 w.
          Runs-pure (false, s) h1
            (Owns-same w.0 (λ k. omega arith), (refl, λ all. impossible (w.1 all) refl)))
        λ key h1 w. with_cert-Runs key h1 w.0

  -- Whatever fails, `create_ca` releases every object that the store does not hold afterwards, none of
  -- them twice; it reports a failure and leaves the store alone, or puts into it a certificate that is
  -- signed by its own key. If no call fails it succeeds, and the certificate is the CA's.
  pub create_ca_lem :
      (h : Heap)
      → Owns (λ k. held s k + f k) h
      → (b : Bool) × (s' : CertStore) × (h' : Heap) × (create_ca env now s h ≡ ok ((b, s'), h'))
        × Owns (λ k. held s' k + f k) h'
        × IsCreated env now s b s'
  create_ca_lem h v =
      let r = create_ca-Runs v in (r.value.0, r.value.1, r.after, r.returns, r.holds.0, r.holds.1)
