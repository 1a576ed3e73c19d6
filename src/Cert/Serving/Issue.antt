-- ===== src/Cert/Serving/Issue.antt =====
-- `issue_for_host` on a store that has its CA: the cache, and what it promises.
use webcm.Common.{
  ℕ, ◌+◌, ◌≡◌, ◌⊎◌, inl, inr, refl, sym, ◌∙◌, ap, subst, List, true, false, if◌then◌else◌, Option,
  none, some, some-injective, arith,
}
use webcm.Cert.Heap.{Env, Heap}
use webcm.Cert.Rules.{Runs, Runs-pure, Runs-bind, Runs-mono, Owns, Owns-same, Succeeds}
use webcm.Cert.Objects.{Certificate, X509, Key, CertPair, no_pair, CertStore}
use webcm.Cert.Create.{create_cert_for_host}
use webcm.Cert.Authority.{held_pair, held}
use webcm.Cert.Leaf.{Pushes}
use webcm.Cert.Leaf.Issued.{host_certificate, IsIssued, IsAnswer, create_cert_for_host_lem}
use webcm.Cert.Paths.{Disk}
use webcm.Cert.Disk.{Pem}
use webcm.Cert.Store.{text_eq, put_cert, unlock, cache_pair, cache_created, issue_new}
use webcm.Cert.Serving.{IsFor, IsCached}
use webcm.Cert.Serving.Copies.{IsDup, dup_pair-Runs, cache_pair-Runs}
use webcm.Cert.Serving.Cache.{
  copied, held_some, text_eq_refl, put_cert-IsCached, answer, view, Memo, kept, not_kept, failed,
  view_put,
}

-- As it should be: signed by the CA, and if no call fails the certificate of the host.
abbrev pub IsGood : Env → X509 → Key → List ℕ → Certificate × ℕ → Type 0
IsGood env ca ca_key hostname (c, secret) =
    (c.signed_by ≡ some ca_key.secret)
    × (Succeeds env
        → (now : ℕ) × (number : ℕ) × (c
            ≡ host_certificate now hostname ca ca_key secret (env.random_serial number)))

-- What `issue_for_host` does to a store whose CA is this one.
pub record Issues (env : Env) (ca : X509) (ca_key : Key) (hostname : List ℕ) (disk : Disk)
    (s : CertStore) (f : ℕ → ℕ) (r : CertPair × CertStore × Disk) (h : Heap) : Type 0 where
  pub owns : Owns (λ k. held_pair r.0 k + (held r.1 k + f k)) h
  pub same_disk : r.2 ≡ disk
  pub same_store : r.1 ≡ record s { cert_cache = r.1.cert_cache; locked = false }
  pub cache : IsCached env ca ca_key r.1.cert_cache
  pub answered : ((r.0 ≡ no_pair) × (Succeeds env → ⊥)) ⊎ IsFor env ca ca_key hostname r.0
  pub memo : Memo (IsGood env ca ca_key hostname) hostname (view s) (answer r.0) (view r.1)
  pub remembered : Succeeds env → view r.1 hostname ≡ answer r.0

module _ (env : Env) (ca : X509) (ca_key : Key) (hostname : List ℕ) (cert : X509) (key : Key) where
  issued_content :
      (now : ℕ)
      → IsIssued env now hostname ca ca_key (record { cert = some cert; key = some key })
      → (cert.content.signed_by ≡ some ca_key.secret)
        × (number : ℕ) × (Succeeds env
            → cert.content
              ≡ host_certificate now hostname ca ca_key key.secret (env.random_serial number))
  issued_content now issued =
      let same : cert ≡ issued.cert =
        some-injective cert issued.cert (ap (λ p. p.cert) issued.is_pair) in
      let same_key : key ≡ issued.key =
        some-injective key issued.key (ap (λ p. p.key) issued.is_pair) in
      (
        ap (λ c. c.content.signed_by) same ∙ issued.signed,
        issued.number,
        λ all.
            ap (λ c. c.content) same
            ∙ issued.content all
            ∙ ap
                (λ k.
                  host_certificate now hostname ca ca_key k.secret
                    (env.random_serial issued.number))
                (sym same_key),
      )

  -- A copy of what is issued is issued, and good.
  pub copied-IsFor :
      (id : ℕ)
      → IsFor env ca ca_key hostname (record { cert = some cert; key = some key })
      → IsFor env ca ca_key hostname (copied cert key id)
  copied-IsFor id (now, issued) =
      let held = issued_content now issued in
      (
        now,
        record {
          cert = record { id = id; content = cert.content };
          key = key;
          is_pair = refl;
          signed = held.0;
          number = held.1;
          content = held.2;
        },
      )

  pub IsFor-IsGood :
      IsFor env ca ca_key hostname (record { cert = some cert; key = some key })
      → IsGood env ca ca_key hostname (cert.content, key.secret)
  IsFor-IsGood (now, issued) =
      let held = issued_content now issued in (held.0, λ all. (now, held.1, held.2 all))

module _ (env : Env) (pem : Pem) (f : ℕ → ℕ) (ca : X509) (ca_key : Key) (pushes : Pushes env)
    (hostname : List ℕ) (disk : Disk) where
  -- What is to be shown of a pair that is made with the lock held.
  abbrev Locked : CertStore → CertPair → CertStore → Heap → Type 0
  Locked s pair s' = Issues env ca ca_key hostname disk s f (pair, unlock s', disk)

  module _ (s : CertStore) (cert : X509) (key : Key)
      (new : IsFor env ca ca_key hostname (record { cert = some cert; key = some key }))
      (was : IsCached env ca ca_key s.cert_cache) where
    abbrev pair : CertPair
    pair = record { cert = some cert; key = some key }

    -- The view of the store with a copy in its cache.
    put_view :
        (id : ℕ) (copy : CertPair)
        → copy ≡ copied cert key id
        → view (record s { cert_cache = put_cert hostname copy s.cert_cache })
          ≡ (λ name. if text_eq hostname name then some (cert.content, key.secret) else view s name)
    put_view id copy e =
        view_put hostname copy s
        ∙ ap (λ p name. if text_eq hostname name then answer p else view s name) e

    put-Locked :
        {h : Heap} (id : ℕ) (copy : CertPair)
        → copy ≡ copied cert key id
        → Owns
            (λ k.
              held (record s { cert_cache = put_cert hostname copy s.cert_cache }) k
              + (held_pair pair k + f k))
            h
        → Locked s pair (record s { cert_cache = put_cert hostname copy s.cert_cache }) h
    put-Locked id copy e v = record {
      owns = Owns-same v (λ k. omega arith);
      same_disk = refl;
      same_store = refl;
      cache =
          put_cert-IsCached hostname env ca ca_key copy s.cert_cache
            (rw e (copied-IsFor env ca ca_key hostname cert key id new)) was;
      answered = inr new;
      memo =
          subst (λ v. Memo (IsGood env ca ca_key hostname) hostname (view s) (answer pair) v)
            (sym (put_view id copy e))
            (kept (view s) (cert.content, key.secret)
              (IsFor-IsGood env ca ca_key hostname cert key new));
      remembered = λ all.
          ap (λ v. v hostname) (put_view id copy e)
          ∙ ap (λ b. if b then some (cert.content, key.secret) else view s hostname)
              (text_eq_refl hostname);
    }

    kept_or_not :
        (o : Option CertPair) (h : Heap)
        → Owns (λ k. held_some o k + (held_pair pair k + (held s k + f k))) h × IsDup env cert key o
        → Runs (Locked s pair) (cache_pair env pem hostname s o) h
    kept_or_not none h w = Runs-pure s h (record {
      owns = Owns-same w.0 (λ k. omega arith);
      same_disk = refl;
      same_store = refl;
      cache = was;
      answered = inr new;
      memo =
          not_kept (view s) (cert.content, key.secret)
            (IsFor-IsGood env ca ca_key hostname cert key new);
      remembered = λ all. absurd (w.1 all);
    })
    kept_or_not (some copy) h w =
        Runs-mono
          (cache_pair-Runs env pem (λ k. held_pair pair k + f k) hostname s copy
            (Owns-same w.0 (λ k. omega arith)))
          (λ s' h1 x.
            subst (λ t. Locked s pair t h1) (sym x.1)
              (put-Locked w.1.0 copy w.1.1
                (Owns-same x.0 (λ k. ap (λ t. held t k + (held_pair pair k + f k)) x.1))))

    cache_created-Runs :
        {h : Heap}
        → Owns (λ k. held_pair pair k + (held s k + f k)) h
        → Runs (Locked s pair) (cache_created env pem hostname s pair) h
    cache_created-Runs v =
        Runs-bind (dup_pair-Runs env pem (λ k. held_pair pair k + (held s k + f k)) cert key v)
          kept_or_not

  empty-Locked :
      {h : Heap} (s : CertStore)
      → IsCached env ca ca_key s.cert_cache
      → (Succeeds env → ⊥)
      → Owns (λ k. held s k + f k) h
      → Locked s no_pair s h
  empty-Locked s was failure v = record {
    owns = Owns-same v (λ k. omega arith);
    same_disk = refl;
    same_store = refl;
    cache = was;
    answered = inl (refl, failure);
    memo = failed (view s);
    remembered = λ all. absurd (failure all);
  }

  created-Runs :
      {h : Heap} (s : CertStore) (pair : CertPair) (now : ℕ)
      → IsCached env ca ca_key s.cert_cache
      → IsAnswer env now hostname ca ca_key pair
      → Owns (λ k. held_pair pair k + (held s k + f k)) h
      → Runs (Locked s pair) (cache_created env pem hostname s pair) h
  created-Runs s pair now was (inl (none_made, failure)) v = rw none_made (
      Runs-pure s _ (
        empty-Locked s was failure
          (Owns-same v (λ k. ap (λ p. held_pair p k + (held s k + f k)) none_made ∙ omega arith))))
  created-Runs s pair now was (inr issued) v = rw issued.is_pair (
      cache_created-Runs s issued.cert issued.key
        (now, subst (λ p. IsIssued env now hostname ca ca_key p) issued.is_pair issued) was
        (Owns-same v (λ k. ap (λ p. held_pair p k + (held s k + f k)) issued.is_pair)))

  pub issue_new-Runs :
      {h : Heap} (s : CertStore)
      → s.ca_cert ≡ some ca
      → s.ca_key ≡ some ca_key
      → IsCached env ca ca_key s.cert_cache
      → Owns (λ k. held s k + f k) h
      → Runs (Issues env ca ca_key hostname disk s f) (issue_new env pem hostname (true, s, disk)) h
  issue_new-Runs s e e' was v =
      Runs-bind (create-Runs' s e e' v) λ pair h1 w.
        Runs-bind (created-Runs s pair disk.now was w.1 w.0) λ s' h2 x. Runs-pure _ h2 x
    where
      create-Runs' :
          {h : Heap} (s : CertStore)
          → s.ca_cert ≡ some ca
          → s.ca_key ≡ some ca_key
          → Owns (λ k. held s k + f k) h
          → Runs
              (λ pair h'.
                Owns (λ k. held_pair pair k + (held s k + f k)) h'
                × IsAnswer env disk.now hostname ca ca_key pair)
              (create_cert_for_host env disk.now hostname s)
              h
      create-Runs' {h} s e e' v =
          let r =
            create_cert_for_host_lem env pushes disk.now hostname ca ca_key (λ k. held s k + f k) s
              h e e' v in
          record { value = r.0; after = r.1; returns = r.2; holds = (r.3, r.4) }
