-- ===== src/Cert/Leaf/Issued.antt =====
-- The whole of `create_cert_for_host`.
use webcm.Common.{
  ℕ, ◌+◌, ◌≡◌, ◌⊎◌, inl, inr, refl, sym, ◌∙◌, ap, List, [], ◌∷◌, Option, none, some, ok, arith,
}
use webcm.Cert.Heap.{
  x509_new, x509_set_version, x509_set_issuer_name, x509_set_subject_name, x509_set_pubkey, Env,
  Heap, pure, ◌>>=◌, occurs, create,
}
use webcm.Cert.Rules.{
  Runs, Runs-pure, Runs-bind, Runs-option, impossible, Owns, Owns-same, free-Runs, Succeeds,
  create-Runs,
}
use webcm.Cert.Objects.{
  Name, subject_alt_name, Certificate, blank, X509, Key, host_name, set_subject, CertPair, no_pair,
  CertStore,
}
use webcm.Cert.Create.{
  host_named, fill_host, host_pair, host_signed, host_with_cert, host_with_ca, create_cert_for_host,
}
use webcm.Cert.Steps.{
  Keeps, generate_key-Runs, try_content-Runs, set_name-Runs, named-Runs, IsSigned, sign-Runs,
}
use webcm.Cert.Authority.{held_pair, set_validity-Runs}
use webcm.Cert.Leaf.Numbered.{IsNumbered, random_serial-Runs}
use webcm.Cert.Leaf.{Pushes, add_alt_name-Runs}

-- The certificate of a host: version 3, a year, for this name and no other, signed by the CA.
abbrev pub host_certificate : ℕ → List ℕ → X509 → Key → ℕ → ℕ → Certificate
host_certificate now hostname ca ca_key secret number = record {
  version = 2;
  serial = number;
  not_before = now;
  not_after = now + 31536000;
  subject = host_name hostname;
  issuer = ca.content.subject;
  public_key = some secret;
  extensions = subject_alt_name (hostname ∷ []) ∷ [];
  signed_by = some ca_key.secret;
}

-- A pair of a certificate and a key, and what is in them.
pub record IsIssued (env : Env) (now : ℕ) (hostname : List ℕ) (ca : X509) (ca_key : Key)
    (pair : CertPair) : Type 0 where
  pub cert : X509
  pub key : Key
  pub is_pair : pair ≡ record { cert = some cert; key = some key }
  pub signed : cert.content.signed_by ≡ some ca_key.secret
  pub number : ℕ
  pub content :
      Succeeds env
      → cert.content ≡ host_certificate now hostname ca ca_key key.secret (env.random_serial number)

-- The pair is empty, because a call has failed, or it is issued.
abbrev pub IsAnswer : Env → ℕ → List ℕ → X509 → Key → CertPair → Type 0
IsAnswer env now hostname ca ca_key pair =
    ((pair ≡ no_pair) × (Succeeds env → ⊥)) ⊎ IsIssued env now hostname ca ca_key pair

abbrev Answers : Env → ℕ → List ℕ → X509 → Key → (ℕ → ℕ) → CertPair → Heap → Type 0
Answers env now hostname ca ca_key f pair h =
    Owns (λ k. held_pair pair k + f k) h × IsAnswer env now hostname ca ca_key pair

module _ (env : Env) (pushes : Pushes env) (now : ℕ) (hostname : List ℕ) (ca : X509)
    (ca_key : Key) where
  -- The certificate before it is filled, and before it is signed.
  abbrev numbered : ℕ → Certificate
  numbered n = record blank { version = 2; serial = env.random_serial n }

  abbrev filled : Key → ℕ → Certificate
  filled key n = record (host_certificate now hostname ca ca_key key.secret (env.random_serial n)) {
    signed_by = none;
  }

  host_named-Runs :
      {f : ℕ → ℕ} {id : ℕ} {c : Certificate} {h : Heap} (o : Option Name) (cert : X509)
      → (Succeeds env → o ≡ some (host_name hostname))
      → Keeps env f id c cert h
      → Runs (Keeps env f id (record c { subject = host_name hostname })) (host_named env o cert) h
  unfolding host_named
  host_named-Runs o cert e w =
      set_name-Runs env x509_set_subject_name set_subject (host_name hostname) o cert e w

  fill_host-Runs :
      {f : ℕ → ℕ} {id : ℕ} {h : Heap} (key : Key) (n : ℕ) (cert : X509)
      → Keeps env f id (numbered n) cert h
      → Runs (Keeps env f id (filled key n)) (fill_host env now hostname ca key cert) h
  unfolding fill_host
  fill_host-Runs key n cert v = Runs-bind (set_validity-Runs env now 31536000 cert v) λ cert h v.
      Runs-bind
        (named-Runs env (host_name hostname) (host_named env) (set_subject (host_name hostname))
          cert (λ g h o e w. host_named-Runs o cert e w) v)
        λ cert h v. Runs-bind (try_content-Runs env x509_set_issuer_name _ cert v) λ cert h v.
          Runs-bind (try_content-Runs env x509_set_pubkey _ cert v)
            λ cert h v. add_alt_name-Runs env pushes hostname cert v

  module _ (f : ℕ → ℕ) where
    host_pair-Runs :
        (key : Key) (n id : ℕ) (o : Option X509) (h : Heap)
        → IsSigned env f id (filled key n) ca_key key o h
        → Runs (Answers env now hostname ca ca_key f) (pure (host_pair env key o)) h
    host_pair-Runs key n id none h v =
        Runs-pure no_pair h (Owns-same v.0 (λ k. omega arith), inl (refl, v.1))
    host_pair-Runs key n id (some cert) h v =
        Runs-pure (record { cert = some cert; key = some key }) h
          (
            Owns-same v.0 (λ k.
                ap (λ i. occurs i k + (occurs key.id k + f k)) (sym v.1.same_id) ∙ omega arith),
            inr (record {
              cert = cert;
              key = key;
              is_pair = refl;
              signed = v.2;
              number = n;
              content = v.1.content;
            }),
          )

    host_signed-Runs :
        (key : Key) (id : ℕ) (o : Option X509) (h : Heap)
        → IsNumbered env f id (record blank { version = 2 }) key o h
        → Runs
            (Answers env now hostname ca ca_key f)
            (host_signed env now hostname ca ca_key key o)
            h
    host_signed-Runs key id none h v =
        Runs-pure no_pair h (Owns-same v.0 (λ k. omega arith), inl (refl, v.1))
    host_signed-Runs key id (some cert) h v =
        Runs-bind (fill_host-Runs key v.1.0 cert (v.0, v.1.1)) λ cert' h1 w.
          Runs-bind (sign-Runs env f ca_key key cert' w)
            λ signed h2 x. host_pair-Runs key v.1.0 id signed h2 x

    host_with_cert-Runs :
        (key : Key) (h : Heap)
        → Owns (λ k. occurs key.id k + f k) h
        → Runs
            (Answers env now hostname ca ca_key f)
            (create env x509_new >>= host_with_cert env now hostname ca ca_key key)
            h
    host_with_cert-Runs key h v =
        Runs-option _ (create-Runs env x509_new v)
          (λ h1 w. Runs-bind (free-Runs {g = f} key.id w.0 (λ k. omega arith)) λ u h2 x.
            Runs-pure no_pair h2 (
              Owns-same x (λ k. omega arith),
              inl (refl, λ all. impossible (all x509_new h.asked) w.1),
            ))
          λ id h1 w.
            Runs-bind
              (try_content-Runs env x509_set_version (λ c. record c { version = 2 })
                (record { id = id; content = blank })
                (w.0, record { same_id = refl; content = λ all. refl }))
              λ cert h2 x.
                Runs-bind (random_serial-Runs env f cert key x.1 h2 x.0)
                  λ o h3 y. host_signed-Runs key id o h3 y

    pub host_with_ca-Runs :
        {h : Heap}
        → Owns f h
        → Runs
            (λ pair h'.
              Owns (λ k. held_pair pair k + f k) h' × IsAnswer env now hostname ca ca_key pair)
            (host_with_ca env now hostname (some ca) (some ca_key))
            h
    host_with_ca-Runs v =
        Runs-option _ (generate_key-Runs env v)
          (λ h1 w.
            Runs-pure no_pair h1
              (Owns-same w.0 (λ k. omega arith), inl (refl, λ all. impossible (w.1 all) refl)))
          λ key h1 w. host_with_cert-Runs key h1 w.0

    -- With a CA, and a stack that takes the names it is given, `create_cert_for_host` releases every
    -- object that is not in the pair it returns, none of them twice, whatever else fails. The pair is empty,
    -- or a certificate that the CA has signed, with a key of its own; if no call fails it is the
    -- certificate of the host.
    pub create_cert_for_host_lem :
        (store : CertStore) (h : Heap)
        → store.ca_cert ≡ some ca
        → store.ca_key ≡ some ca_key
        → Owns f h
        → (pair : CertPair) × (h' : Heap) × (create_cert_for_host env now hostname store h
            ≡ ok (pair, h'))
          × Owns (λ k. held_pair pair k + f k) h'
          × IsAnswer env now hostname ca ca_key pair
    unfolding create_cert_for_host
    create_cert_for_host_lem store h e e' v =
        let r = host_with_ca-Runs v in
        (r.value, r.after, rw (e, e') r.returns, r.holds.0, r.holds.1)
