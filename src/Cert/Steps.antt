-- ===== src/Cert/Steps.antt =====
-- The steps that certificates are built in: who owns what, and what is built if no call fails.
use webcm.Common.{
  ℕ, ◌+◌, ◌≡◌, refl, sym, ◌∙◌, ap, [], ◌∷◌, ◌++◌, append_assoc, append-nil, Bool, true, false,
  Option, none, some, some-injective, inl, inr, ◌⊎◌, arith,
}
use webcm.Cert.Heap.{
  Call, x509_name_new, pkey_new, pkey_ctx_new_id, pkey_keygen_init, pkey_set_curve, pkey_keygen,
  x509_name_add_entry, x509_add_ext, x509_sign, Env, Heap, Action, occurs, secret,
}
use webcm.Cert.Rules.{
  Runs, Runs-pure, Runs-bind, Runs-mono, Runs-option, Runs-bool, impossible, Owns, Owns-same,
  ask-Runs, free-Runs, occurs_some, is_some, Succeeds, create-Runs, try-Runs, all_succeed-Runs,
}
use webcm.Cert.Objects.{
  Name, Extension, Certificate, X509, Key, generated_key, generate_key, add_entries, try_content,
  set_name, add_extension, key_id,
}
use webcm.Cert.Create.{named, sign}

-- The pointer, and what it points to if no call fails.
pub record IsBuilt (env : Env) (id : ℕ) (c : Certificate) (cert : X509) : Type 0 where
  pub same_id : cert.id ≡ id
  pub content : Succeeds env → cert.content ≡ c

-- The references are owned as before, and the certificate is built so.
abbrev pub Keeps : Env → (ℕ → ℕ) → ℕ → Certificate → X509 → Heap → Type 0
Keeps env f id c cert h = Owns f h × IsBuilt env id c cert

secret-Runs :
    {f : ℕ → ℕ} {h : Heap} (env : Env) → Owns f h → Runs (λ s h'. Owns f h') (secret env) h
unfolding secret
secret-Runs {h = h} env v = record {
  value = env.generated h.asked;
  after = h;
  returns = refl;
  holds = v;
}

module _ (env : Env) {f : ℕ → ℕ} where
  -- A key that is generated is owned, and everything else is released.
  pub generate_key-Runs :
      {h : Heap}
      → Owns f h
      → Runs
          (λ o h'.
            Owns (λ k. occurs_some (key_id o) k + f k) h' × (Succeeds env → is_some o ≡ true))
          (generate_key env)
          h
  unfolding generate_key
  generate_key-Runs {h} v =
      Runs-option _ (create-Runs env pkey_new v)
        (λ h1 w. Runs-pure none h1 (w.0, λ all. impossible (all pkey_new h.asked) w.1))
        λ id h1 w.
          Runs-option _ (create-Runs env pkey_ctx_new_id w.0)
            (λ h2 x. Runs-bind (free-Runs {g = f} id x.0 (λ k. omega arith)) λ u h3 y.
              Runs-pure none h3 (
                Owns-same y (λ k. omega arith),
                λ all. impossible (all pkey_ctx_new_id h1.asked) x.1,
              ))
            λ ctx h2 x.
              Runs-bind
                (all_succeed-Runs env (pkey_keygen_init ∷ pkey_set_curve ∷ pkey_keygen ∷ []) h2 x.0)
                λ done h3 y.
                  Runs-bind (free-Runs {g = λ k. occurs id k + f k} ctx y.0 (λ k. omega arith))
                    λ u h4 z. finish id done h4 z y.1
    where
      finish :
          (id : ℕ) (done : Bool) (h4 : Heap)
          → Owns (λ k. occurs id k + f k) h4
          → (Succeeds env → done ≡ true)
          → Runs
              (λ o h'.
                Owns (λ k. occurs_some (key_id o) k + f k) h' × (Succeeds env → is_some o ≡ true))
              (generated_key env id done)
              h4
      finish id true h4 z y =
          Runs-bind (secret-Runs env z)
            λ s h5 q. Runs-pure (some (record { id = id; secret = s })) h5 (q, λ all. refl)
      finish id false h4 z y = Runs-bind (free-Runs {g = f} id z (λ k. omega arith)) λ u h5 q.
          Runs-pure none h5 (Owns-same q (λ k. omega arith), λ all. impossible (y all) refl)

  pub add_entries-Runs :
      {h : Heap} (entries name : Name)
      → Owns f h
      → Runs
          (λ n h'. Owns f h' × (Succeeds env → n ≡ name ++ entries))
          (add_entries env entries name)
          h
  unfolding add_entries
  add_entries-Runs {h} [] name v = Runs-pure name h (v, λ all. sym (append-nil name))
  add_entries-Runs (entry ∷ entries) name v =
      Runs-bind (try-Runs env x509_name_add_entry (λ n. n ++ (entry ∷ [])) name v) λ n h1 w.
        Runs-mono (add_entries-Runs entries n w.0) λ n' h2 x. (
          x.0,
          λ all.
              x.1 all ∙ ap (λ m. m ++ entries) (w.2 all) ∙ append_assoc name (entry ∷ []) entries,
        )

  module _ {id : ℕ} {c : Certificate} where
    pub try_content-Runs :
        {h : Heap} (call : Call) (t : Certificate → Certificate) (cert : X509)
        → Keeps env f id c cert h
        → Runs (Keeps env f id (t c)) (try_content env call t cert) h
    unfolding try_content
    try_content-Runs call t cert v = Runs-mono (try-Runs env call _ cert v.0) λ cert' h1 w. (
      w.0,
      record {
        same_id = same w.1 ∙ v.1.same_id;
        content = λ all. ap (λ (x : X509). x.content) (w.2 all) ∙ ap t (v.1.content all);
      },
    )
      where
        same :
            {cert' : X509} {d : Certificate}
            → (cert' ≡ cert) ⊎ (cert' ≡ record cert { content = d })
            → cert'.id ≡ cert.id
        same (inl e) = ap (λ (x : X509). x.id) e
        same (inr e) = ap (λ (x : X509). x.id) e

    pub set_name-Runs :
        {h : Heap} (call : Call) (t : Name → Certificate → Certificate) (n : Name) (o : Option Name)
        (cert : X509)
        → (Succeeds env → o ≡ some n)
        → Keeps env f id c cert h
        → Runs (Keeps env f id (t n c)) (set_name env call t o cert) h
    unfolding set_name
    set_name-Runs {h} call t n none cert e v =
        Runs-pure cert h
          (v.0, record { same_id = v.1.same_id; content = λ all. absurd (cc (e all)) })
    set_name-Runs call t n (some m) cert e v =
        Runs-mono (try_content-Runs call (t m) cert v) λ cert' h1 w. (
          w.0,
          record {
            same_id = w.1.same_id;
            content = λ all. w.1.content all ∙ ap (λ x. t x c) (some-injective m n (e all));
          },
        )

module _ (env : Env) {f : ℕ → ℕ} {id : ℕ} {c : Certificate} where
  pub add_extension-Runs :
      {h : Heap} (call : Call) (extension : Extension) (cert : X509)
      → Keeps env f id c cert h
      → Runs
          (Keeps env f id (record c { extensions = c.extensions ++ (extension ∷ []) }))
          (add_extension env call extension cert)
          h
  unfolding add_extension
  add_extension-Runs {h} call extension cert v =
      Runs-option _ (create-Runs env call v.0)
        (λ h1 w. Runs-pure cert h1 (
          Owns-same w.0 (λ k. omega arith),
          record { same_id = v.1.same_id; content = λ all. impossible (all call h.asked) w.1 },
        ))
        λ extension_id h1 w.
          Runs-bind (try_content-Runs env x509_add_ext _ cert (w.0, v.1)) λ cert' h2 x.
            Runs-bind (free-Runs {g = f} extension_id x.0 (λ k. refl))
              λ u h3 y. Runs-pure cert' h3 (y, x.1)

  -- A name is released once it has been used.
  pub named-Runs :
      {h : Heap} (entries : Name) (use_name : Option Name → X509 → Action X509)
      (t : Certificate → Certificate) (cert : X509)
      → ((g : ℕ → ℕ) (h' : Heap) (o : Option Name)
          → (Succeeds env → o ≡ some entries)
          → Keeps env g id c cert h'
          → Runs (Keeps env g id (t c)) (use_name o cert) h')
      → Keeps env f id c cert h
      → Runs (Keeps env f id (t c)) (named env entries use_name cert) h
  unfolding named
  named-Runs {h} entries use_name t cert apply v =
      Runs-option _ (create-Runs env x509_name_new v.0)
        (λ h1 w.
          apply f h1 none (λ all. impossible (all x509_name_new h.asked) w.1)
            (Owns-same w.0 (λ k. omega arith), v.1))
        λ name_id h1 w. Runs-bind (add_entries-Runs env entries [] w.0) λ name h2 x.
          Runs-bind
            (apply (λ k. occurs name_id k + f k) h2 (some name) (λ all. ap some (x.1 all))
              (x.0, v.1))
            λ cert' h3 y.
              Runs-bind (free-Runs {g = f} name_id y.0 (λ k. refl))
                λ u h4 z. Runs-pure cert' h4 (z, y.1)

-- The certificate is signed, or it and its key are released.
abbrev pub IsSigned : Env → (ℕ → ℕ) → ℕ → Certificate → Key → Key → Option X509 → Heap → Type 0
IsSigned env f id c signer key none h = Owns f h × (Succeeds env → ⊥)
IsSigned env f id c signer key (some cert) h =
    Owns (λ k. occurs id k + (occurs key.id k + f k)) h
    × IsBuilt env id (record c { signed_by = some signer.secret }) cert
    × (cert.content.signed_by ≡ some signer.secret)

pub sign-Runs :
    (env : Env) (f : ℕ → ℕ) {id : ℕ} {c : Certificate} {h : Heap} (signer key : Key) (cert : X509)
    → Keeps env (λ k. occurs id k + (occurs key.id k + f k)) id c cert h
    → Runs (IsSigned env f id c signer key) (sign env signer key cert) h
unfolding sign
sign-Runs env f {id} {h = h} signer key cert v =
    Runs-bool _ (ask-Runs env x509_sign v.0)
      (λ h1 w.
        Runs-bind
          (free-Runs {g = λ k. occurs key.id k + f k} cert.id w.0
            (λ k. ap (λ i. occurs i k + (occurs key.id k + f k)) (sym v.1.same_id)))
          λ u h2 x.
            Runs-bind (free-Runs {g = f} key.id x (λ k. refl))
              λ u h3 y. Runs-pure none h3 (y, λ all. impossible (all x509_sign h.asked) w.1))
      λ h1 w. Runs-pure _ h1 (
        w.0,
        record {
          same_id = v.1.same_id;
          content = λ all.
              ap (λ (c : Certificate). record c { signed_by = some signer.secret })
                (v.1.content all);
        },
        refl,
      )
