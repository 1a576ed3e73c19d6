-- ===== src/Cert/Serving/Ensured.antt =====
-- `ensure_ca`: what it promises, and that a CA outlives the program.
use webcm.Common.{ℕ, ◌+◌, ◌≡◌, refl, sym, ◌∙◌, ap, Bool, true, false, some-injective, ok, arith}
use webcm.Cert.Heap.{Env, Heap}
use webcm.Cert.Rules.{
  Runs, Runs-returns, Runs-pure, Runs-bind, impossible, Owns, Owns-same, Succeeds,
}
use webcm.Cert.Objects.{Certificate, CertStore, new_store}
use webcm.Cert.Authority.{held}
use webcm.Cert.Paths.{Disk}
use webcm.Cert.Disk.{Pem, PemLaws}
use webcm.Cert.Files.{OnDisk, IsLoaded}
use webcm.Cert.Files.Loaded.{load_ca-Runs}
use webcm.Cert.Files.Installed.{install-Runs}
use webcm.Cert.Store.{lock, ca_searched, ensure_ca}
use webcm.Cert.Files.Plain.{IsPlain, Flushes}
use webcm.Cert.Serving.{IsIdle, HasCa, IsStored}
use webcm.Cert.Serving.Ready.{ensure_ca-Runs}

module _ (env : Env) (pem : Pem) (laws : PemLaws pem) (f : ℕ → ℕ) where
  pub ensure_ca_lem :
      (disk : Disk) (s : CertStore) (h : Heap)
      → IsIdle env s
      → Owns (λ k. held s k + f k) h
      → (b : Bool) × (s' : CertStore) × (disk' : Disk) × (h' : Heap) × (ensure_ca env pem disk s h
          ≡ ok ((b, s', disk'), h'))
        × Owns (λ k. held s' k + f k) h'
        × IsIdle env s'
        × (s'.ca_loaded ≡ b)
        × (IsPlain disk → Succeeds env → b ≡ true)
        × (s.ca_loaded ≡ false → IsPlain disk → Flushes env → b ≡ true → IsStored pem s' disk')
  ensure_ca_lem disk s h idle v =
      let r = ensure_ca-Runs env pem laws f disk s idle v in
      (
        r.value.0, r.value.1, r.value.2, r.after, r.returns, r.holds.0, r.holds.1, r.holds.2,
        r.holds.3, r.holds.4,
      )

-- The files determine the CA.
OnDisk-unique :
    {pem : Pem} {disk : Disk} {c c' : Certificate} {secret secret' : ℕ}
    → OnDisk pem disk c secret
    → OnDisk pem disk c' secret'
    → (c ≡ c') × (secret ≡ secret')
OnDisk-unique {pem} {c = c} {c'} {secret} {secret'} on on' =
    let same = some-injective on.cert_pem on'.cert_pem (sym on.cert_file ∙ on'.cert_file) in
    let same_key = some-injective on.key_pem on'.key_pem (sym on.key_file ∙ on'.key_file) in
    (
      some-injective c c' (sym on.cert_read ∙ ap pem.read_cert same ∙ on'.cert_read),
      some-injective secret secret' (sym on.key_read ∙ ap pem.read_key same_key ∙ on'.key_read),
    )

module _ (env : Env) (pem : Pem) (all : Succeeds env) (disk : Disk) (c : Certificate) (secret : ℕ)
    (on : OnDisk pem disk c secret) where
  found-Runs :
      (s : CertStore) (f : ℕ → ℕ) (h : Heap) (b : Bool) (s' : CertStore)
      → Owns f h
      → b ≡ true
      → IsLoaded pem disk s b s'
      → Runs (λ r h'. (r.0 ≡ true) × HasCa c secret r.1) (ca_searched env pem disk (b, s')) h
  found-Runs s f h false s' v e loaded = impossible e refl
  found-Runs s f h true s' v e (ca, ca_key, store, read) =
      let same = OnDisk-unique read on in
      Runs-bind (install-Runs env f disk (record s' { ca_loaded = true }) v) λ disk' h1 w.
        Runs-pure _ h1 (
          refl,
          record {
            ca = ca;
            ca_key = ca_key;
            has_cert = ap (λ t. t.ca_cert) store;
            has_key = ap (λ t. t.ca_key) store;
            same_cert = same.0;
            same_secret = same.1;
          },
        )

  reload-Runs :
      {h : Heap} {f : ℕ → ℕ}
      → Owns f h
      → Runs (λ r h'. (r.0 ≡ true) × HasCa c secret r.1) (ensure_ca env pem disk new_store) h
  unfolding ensure_ca lock
  reload-Runs {h} {f} v =
      Runs-bind
        (Runs-pure {P = λ t h'. (t ≡ record new_store { locked = true }) × Owns f h'} _ h (refl, v))
        λ t h1 w. rw w.0 (
          Runs-bind
            (load_ca-Runs env pem disk f (record new_store { locked = true })
              (Owns-same w.1 (λ k. omega arith)))
            λ r h2 x.
              found-Runs (record new_store { locked = true }) _ h2 r.0 r.1 x.0 (x.2 all c secret on)
                x.1)

-- What `ensure_ca` makes, the program finds again when it starts the next time. On a disk where neither a
-- link nor a directory stands at the paths that are written, from a store between two calls that has no CA
-- yet, if no file loses anything when it is closed, `ensure_ca` succeeds, and what is written as PEM is read
-- again: on the disk that it leaves a new store loads the same certificate and the same key, if no call fails
-- then.
pub ensure_ca-ensure_ca :
    (env env' : Env) (pem : Pem)
    → PemLaws pem
    → (disk : Disk) (s : CertStore) (h : Heap) → IsPlain disk
    → Flushes env
    → IsIdle env s
    → s.ca_loaded ≡ false
    → Owns (held s) h
    → (s' : CertStore) (disk' : Disk) (h' : Heap)
    → ensure_ca env pem disk s h ≡ ok ((true, s', disk'), h')
    → Succeeds env'
    → (start : Heap) → Owns (λ k. 0) start
    → (c : Certificate) × (secret : ℕ) × HasCa c secret s'
      × (t : CertStore) × (disk'' : Disk) × (end : Heap) × (ensure_ca env' pem disk' new_store start
          ≡ ok ((true, t, disk''), end))
      × HasCa c secret t
ensure_ca-ensure_ca env env' pem laws disk s h plain flushes idle fresh v s' disk' h' e all start
      w =
    let ends =
      Runs-returns
        (ensure_ca-Runs env pem laws (λ k. 0) disk s idle (Owns-same v (λ k. omega arith))) e in
    let stored = ends.4 fresh plain flushes refl in
    let again = reload-Runs env' pem all disk' stored.0 stored.1 stored.3 w in
    (
      stored.0,
      stored.1,
      stored.2,
      again.value.1,
      again.value.2,
      again.after,
      again.returns ∙ ap (λ b. ok ((b, again.value.1, again.value.2), again.after)) again.holds.0,
      again.holds.1,
    )
