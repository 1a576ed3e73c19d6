-- ===== src/Cert/Serving/Ready.antt =====
-- `ensure_ca`, from finding the CA to its end.
use webcm.Common.{ℕ, ◌+◌, ◌≡◌, refl, sym, ◌∙◌, ap, [], Bool, true, false, some}
use webcm.Cert.Heap.{Env, Heap, pure}
use webcm.Cert.Rules.{
  Runs, Runs-pure, Runs-bind, Runs-mono, Runs-if, impossible, Owns, Owns-same, Succeeds,
}
use webcm.Cert.Objects.{Certificate, X509, Key, CertStore}
use webcm.Cert.Authority.{held, IsCreated, create_ca-Runs}
use webcm.Cert.Paths.{ca_cert_path, ca_key_path, Disk, content}
use webcm.Cert.Disk.{Pem, PemLaws}
use webcm.Cert.Files.{OnDisk, IsLoaded}
use webcm.Cert.Files.Loaded.{load_ca-Runs}
use webcm.Cert.Files.Saved.{IsSaved, IsSaved-OnDisk, save_ca-Runs}
use webcm.Cert.Files.Plain.{IsPlain, Flushes, stat-IsFree}
use webcm.Cert.Files.Copied.{IsKept}
use webcm.Cert.Files.Installed.{install-Runs}
use webcm.Cert.Store.{lock, unlock, ca_ready, ca_saved, ca_created, ca_searched, ensure_ca}
use webcm.Cert.Serving.{Serves, IsIdle, IsStored, Finds}

OnDisk-kept :
    {pem : Pem} {disk disk' : Disk} {c : Certificate} {secret : ℕ}
    → IsPlain disk
    → IsPlain disk'
    → IsKept disk disk'
    → OnDisk pem disk c secret
    → OnDisk pem disk' c secret
OnDisk-kept {disk = disk} {disk'} plain plain' kept on = record {
  cert_pem = on.cert_pem;
  key_pem = on.key_pem;
  cert_file =
      ap content (
        stat-IsFree ca_cert_path disk' plain'.cert
        ∙ kept.0
        ∙ sym (stat-IsFree ca_cert_path disk plain.cert))
      ∙ on.cert_file;
  key_file =
      ap content (
        stat-IsFree ca_key_path disk' plain'.key
        ∙ kept.1
        ∙ sym (stat-IsFree ca_key_path disk plain.key))
      ∙ on.key_file;
  cert_read = on.cert_read;
  key_read = on.key_read;
}

-- After `ensure_ca`: it succeeds exactly if a CA is loaded.
abbrev Ensures : Env → Pem → Disk → (ℕ → ℕ) → Bool × CertStore × Disk → Heap → Type 0
Ensures env pem start f (b, s, disk) h =
    Owns (λ k. held s k + f k) h
    × IsIdle env s
    × (s.ca_loaded ≡ b)
    × Finds env pem start (b, s, disk)

module _ (env : Env) (pem : Pem) (laws : PemLaws pem) (f : ℕ → ℕ) (start : Disk) where
  pub ca_ready-Runs :
      {h : Heap} (disk : Disk) (s : CertStore) (ca : X509) (ca_key : Key)
      → s.ca_cert ≡ some ca
      → s.ca_key ≡ some ca_key
      → s.cert_cache ≡ []
      → (IsPlain start → IsPlain disk)
      → (IsPlain start → Flushes env → OnDisk pem disk ca.content ca_key.secret)
      → Owns (λ k. held s k + f k) h
      → Runs (Ensures env pem start f) (ca_ready env pem disk s) h
  ca_ready-Runs disk s ca ca_key e e' none_cached plain on v =
      Runs-bind (install-Runs env (λ k. held s k + f k) disk (record s { ca_loaded = true }) v)
        λ disk' h1 w. Runs-pure _ h1 (
          w.0.0,
          record {
            unlocked = refl;
            loaded = λ t. record {
              ca = ca;
              ca_key = ca_key;
              has_cert = e;
              has_key = e';
              cache = rw none_cached tt;
            };
            empty = λ t. absurd (cc t);
          },
          refl,
          λ p. (
            (λ all. refl),
            λ all t.
                let x = w.0.1 (plain p) in
                (
                  ca.content,
                  ca_key.secret,
                  record {
                    ca = ca;
                    ca_key = ca_key;
                    has_cert = e;
                    has_key = e';
                    same_cert = refl;
                    same_secret = refl;
                  },
                  OnDisk-kept (plain p) x.0 x.1 (on p all),
                ),
          ),
        )

  ensure_failed :
      {h : Heap} (disk : Disk) (s : CertStore)
      → s.ca_loaded ≡ false
      → s.cert_cache ≡ []
      → (IsPlain start → Succeeds env → ⊥)
      → Owns (λ k. held s k + f k) h
      → Runs (Ensures env pem start f) (pure (false, unlock s, disk)) h
  ensure_failed disk s e none_cached failed v = Runs-pure _ _ (
    record { owned = v.owned },
    record { unlocked = refl; loaded = λ t. impossible t e; empty = λ t. none_cached },
    e,
    λ p. ((λ all. absurd (failed p all)), λ all t. absurd (cc t)),
  )

  ca_saved-Runs :
      {h : Heap} (s : CertStore) (ca : X509) (ca_key : Key)
      → s.ca_loaded ≡ false
      → s.cert_cache ≡ []
      → (b : Bool) (disk : Disk)
      → Owns (λ k. held (record s { ca_cert = some ca; ca_key = some ca_key }) k + f k) h
      → (IsPlain start
          → IsPlain disk
            × (Flushes env → b ≡ true → IsSaved pem ca ca_key disk)
            × (Succeeds env → b ≡ true))
      → Runs
          (Ensures env pem start f)
          (ca_saved env pem (record s { ca_cert = some ca; ca_key = some ca_key }) (b, disk))
          h
  ca_saved-Runs s ca ca_key e none_cached true disk v saved =
      ca_ready-Runs disk (record s { ca_cert = some ca; ca_key = some ca_key }) ca ca_key refl refl
        none_cached (λ p. (saved p).0)
        (λ p all. IsSaved-OnDisk pem ca ca_key disk laws ((saved p).1 all refl)) v
  ca_saved-Runs s ca ca_key e none_cached false disk v saved =
      ensure_failed disk (record s { ca_cert = some ca; ca_key = some ca_key }) e none_cached
        (λ p all. impossible ((saved p).2 all) refl) v

  ca_created-Runs :
      {h : Heap} (s : CertStore)
      → s.ca_loaded ≡ false
      → s.cert_cache ≡ []
      → (b : Bool) (s' : CertStore) → Owns (λ k. held s' k + f k) h
      → IsCreated env start.now s b s'
      → Runs (Ensures env pem start f) (ca_created env pem start (b, s')) h
  ca_created-Runs s e none_cached false s' v created =
      ensure_failed start s' (ap (λ t. t.ca_loaded) created.0 ∙ e)
        (ap (λ t. t.cert_cache) created.0 ∙ none_cached) (λ p. created.1) v
  ca_created-Runs s e none_cached true s' v created =
      let t = record s { ca_cert = some created.cert; ca_key = some created.key } in
      rw created.store (
        Runs-bind
          (save_ca-Runs env (λ k. held t k + f k) pem created.cert created.key start s
            (Owns-same v (λ k. ap (λ t'. held t' k + f k) created.store)))
          λ r h1 w. ca_saved-Runs s created.cert created.key e none_cached r.0 r.1 w.0 w.1)

  ca_searched-Runs :
      {h : Heap} (s : CertStore)
      → s.ca_loaded ≡ false
      → s.cert_cache ≡ []
      → (b : Bool) (s' : CertStore) → Owns (λ k. held s' k + f k) h
      → IsLoaded pem start s b s'
      → Runs (Ensures env pem start f) (ca_searched env pem start (b, s')) h
  ca_searched-Runs s e none_cached true s' v (ca, ca_key, store, on) =
      ca_ready-Runs start s' ca ca_key (ap (λ t. t.ca_cert) store) (ap (λ t. t.ca_key) store)
        (ap (λ t. t.cert_cache) store ∙ none_cached) (λ p. p) (λ p all. on) v
  ca_searched-Runs s e none_cached false s' v same =
      Runs-bind (create_ca-Runs env start.now f s' v) λ r h1 w.
        ca_created-Runs s' (ap (λ t. t.ca_loaded) same ∙ e)
          (ap (λ t. t.cert_cache) same ∙ none_cached) r.0 r.1 w.0 w.1

  pub ensure_ca-Runs :
      {h : Heap} (s : CertStore)
      → IsIdle env s
      → Owns (λ k. held s k + f k) h
      → Runs
          (λ r h'.
            Owns (λ k. held r.1 k + f k) h'
            × IsIdle env r.1
            × (r.1.ca_loaded ≡ r.0)
            × (IsPlain start → Succeeds env → r.0 ≡ true)
            × (s.ca_loaded ≡ false
                → IsPlain start
                → Flushes env
                → r.0 ≡ true
                → IsStored pem r.1 r.2))
          (ensure_ca env pem start s)
          h
  unfolding ensure_ca lock
  ensure_ca-Runs s idle v = rw idle.unlocked (
      Runs-bind
        (Runs-pure {P = λ t h'. (t ≡ record s { locked = true }) × Owns (λ k. held s k + f k) h'} _
          _ (refl, v))
        λ t h1 w. rw w.0 (
          Runs-if s.ca_loaded
            (λ e.
              Runs-pure (true, record s { locked = false }, start) h1
                (
                  record { owned = w.1.owned },
                  record {
                    unlocked = refl;
                    loaded = λ t. rebased (idle.loaded t);
                    empty = idle.empty;
                  },
                  e,
                  (λ p all. refl),
                  λ e'. impossible e e',
                ))
            (λ e.
              Runs-mono
                (Runs-bind (load_ca-Runs env pem start f (record s { locked = true }) w.1) λ r h2 x.
                  ca_searched-Runs (record s { locked = true }) e (idle.empty e) r.0 r.1 x.0 x.1)
                (λ r h2 x. (x.0, x.1, x.2, (λ p. (x.3 p).0), λ e' p. (x.3 p).1)))))
    where
      rebased : Serves env s → Serves env (record s { locked = false })
      rebased t = record {
        ca = t.ca;
        ca_key = t.ca_key;
        has_cert = t.has_cert;
        has_key = t.has_key;
        cache = t.cache;
      }
