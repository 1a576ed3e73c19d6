-- ===== src/Cert/Serving/Copies.antt =====
-- The copies of pairs that the cache gives out and takes in.
use webcm.Common.{ℕ, ◌+◌, ◌≡◌, refl, ◌∙◌, List, Option, none, some, arith}
use webcm.Cert.Heap.{pkey_up_ref, x509_dup, Env, Heap}
use webcm.Cert.Rules.{
  Runs, Runs-pure, Runs-bind, Runs-if, Runs-option, impossible, Owns, Owns-same, Succeeds, ask-Runs,
  create-Runs, retain-Runs, free-Runs, free_some-Runs, occurs_some,
}
use webcm.Cert.Objects.{X509, Key, CertPair, CertStore, cert_id, key_id}
use webcm.Cert.Authority.{held_pair, held}
use webcm.Cert.Disk.{Pem}
use webcm.Cert.Store.{find_cert, put_cert, release, dup_pair, cache_pair}
use webcm.Cert.Serving.Cache.{copied, held_some, cached_put}

-- A copy, which is made if no call fails.
abbrev pub IsDup : Env → X509 → Key → Option CertPair → Type 0
IsDup env cert key none = Succeeds env → ⊥
IsDup env cert key (some copy) = (id : ℕ) × (copy ≡ copied cert key id)

module _ (env : Env) (pem : Pem) (f : ℕ → ℕ) where
  pub dup_pair-Runs :
      {h : Heap} (cert : X509) (key : Key)
      → Owns f h
      → Runs
          (λ o h'. Owns (λ k. held_some o k + f k) h' × IsDup env cert key o)
          (dup_pair env pem (record { cert = some cert; key = some key }))
          h
  unfolding dup_pair
  dup_pair-Runs {h} cert key v =
      Runs-option _ (create-Runs env x509_dup v)
        (λ h1 w.
          Runs-pure none h1
            (Owns-same w.0 (λ k. omega arith), λ all. impossible (all x509_dup h.asked) w.1))
        λ id h1 w. Runs-bind (ask-Runs env pkey_up_ref w.0) λ shared h2 x.
          Runs-if shared
            (λ e.
              Runs-bind (retain-Runs key.id x.0)
                λ u h3 y. Runs-pure _ h3 (Owns-same y (λ k. omega arith), (id, refl)))
            (λ e. Runs-bind (free-Runs {g = f} id x.0 (λ k. omega arith)) λ u h3 y.
              Runs-pure none h3 (
                Owns-same y (λ k. omega arith),
                λ all. impossible (all pkey_up_ref h1.asked) (x.1 ∙ e),
              ))

  release-Runs :
      {h : Heap} {g : ℕ → ℕ} (o : Option CertPair)
      → Owns g h
      → ((k : ℕ) → g k ≡ held_some o k + f k)
      → Runs (λ u h'. Owns f h') (release o) h
  release-Runs {h} none v e = Runs-pure tt h (Owns-same v (λ k. e k ∙ omega arith))
  release-Runs (some pair) v e =
      Runs-bind
        (free_some-Runs {g = λ k. occurs_some (key_id pair.key) k + f k} (cert_id pair.cert) v
          (λ k. e k ∙ omega arith))
        λ u h1 w. free_some-Runs {g = f} (key_id pair.key) w (λ k. refl)

module _ (env : Env) (pem : Pem) (f : ℕ → ℕ) where
  pub cache_pair-Runs :
      {h : Heap} (hostname : List ℕ) (store : CertStore) (copy : CertPair)
      → Owns (λ k. held_pair copy k + (held store k + f k)) h
      → Runs
          (λ s h'.
            Owns (λ k. held s k + f k) h'
            × (s ≡ record store { cert_cache = put_cert hostname copy store.cert_cache }))
          (cache_pair env pem hostname store (some copy))
          h
  cache_pair-Runs hostname store copy v =
      Runs-bind
        (release-Runs env pem
          (λ k.
            held (record store { cert_cache = put_cert hostname copy store.cert_cache }) k + f k)
          (find_cert hostname store.cert_cache) v
          (λ k. omega (arith, cached_put hostname copy store.cert_cache k)))
        λ u h1 w. Runs-pure _ h1 (w, refl)
