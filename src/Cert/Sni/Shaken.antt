-- ===== src/Cert/Sni/Shaken.antt =====
-- What one handshake is given.
use webcm.Common.{
  ℕ, ◌+◌, ◌≡◌, ◌⊎◌, inl, inr, refl, sym, ◌∙◌, ap, subst, List, [], ◌∷◌, Bool, true, false, Option,
  none, some, some-injective, arith,
}
use webcm.Cert.Heap.{ssl_use_certificate, ssl_use_private_key, Env, Heap, occurs}
use webcm.Cert.Rules.{
  Runs, Runs-pure, Runs-bind, Runs-if, impossible, Owns, Owns-same, Succeeds, ask-Runs, retain-Runs,
  free_some-Runs, occurs_some,
}
use webcm.Cert.Objects.{X509, Key, CertPair, no_pair, CertStore, cert_id, key_id}
use webcm.Cert.Authority.{held_pair, held}
use webcm.Cert.Leaf.{Pushes}
use webcm.Cert.Paths.{Disk}
use webcm.Cert.Disk.{Pem}
use webcm.Cert.Serving.{IsFor, IsIdle}
use webcm.Cert.Serving.Issue.{IsGood, IsFor-IsGood}
use webcm.Cert.Serving.Promises.{answers-Runs, still_serves}
use webcm.Cert.Leaf.Issued.{IsIssued}
use webcm.Cert.Sni.{
  Ssl, no_ssl, tlsext_err_ok, use_certificate, use_private_key, use_key, use_pair, with_pair,
  sni_callback,
}

abbrev pub held_ssl : Ssl → ℕ → ℕ
held_ssl ssl k = occurs_some (cert_id ssl.cert) k + occurs_some (key_id ssl.key) k

module _ (env : Env) (f : ℕ → ℕ) where
  use_certificate-Runs :
      {h : Heap} (cert : X509) (ssl : Ssl)
      → Owns (λ k. held_ssl ssl k + f k) h
      → Runs
          (λ r h'.
            Owns (λ k. held_ssl r.1 k + f k) h'
            × (Succeeds env → r ≡ (true, record ssl { cert = some cert })))
          (use_certificate env cert ssl)
          h
  unfolding use_certificate
  use_certificate-Runs {h} cert ssl v = Runs-bind (ask-Runs env ssl_use_certificate v) λ used h1 w.
      Runs-if used
        (λ e. Runs-bind (retain-Runs cert.id w.0) λ u h2 x.
          Runs-bind
            (free_some-Runs {g = λ k. occurs cert.id k + (occurs_some (key_id ssl.key) k + f k)}
              (cert_id ssl.cert) x (λ k. omega arith))
            λ u' h3 y. Runs-pure _ h3 (Owns-same y (λ k. omega arith), λ all. refl))
        (λ e. Runs-pure _ h1 (w.0, λ all. impossible (all ssl_use_certificate h.asked) (w.1 ∙ e)))

  use_private_key-Runs :
      {h : Heap} (key : Key) (ssl : Ssl)
      → Owns (λ k. held_ssl ssl k + f k) h
      → Runs
          (λ r h'.
            Owns (λ k. held_ssl r.1 k + f k) h'
            × (Succeeds env → r ≡ (true, record ssl { key = some key })))
          (use_private_key env key ssl)
          h
  unfolding use_private_key
  use_private_key-Runs {h} key ssl v = Runs-bind (ask-Runs env ssl_use_private_key v) λ used h1 w.
      Runs-if used
        (λ e. Runs-bind (retain-Runs key.id w.0) λ u h2 x.
          Runs-bind
            (free_some-Runs {g = λ k. occurs key.id k + (occurs_some (cert_id ssl.cert) k + f k)}
              (key_id ssl.key) x (λ k. omega arith))
            λ u' h3 y. Runs-pure _ h3 (Owns-same y (λ k. omega arith), λ all. refl))
        (λ e. Runs-pure _ h1 (w.0, λ all. impossible (all ssl_use_private_key h.asked) (w.1 ∙ e)))

  use_key-Runs :
      {h : Heap} (key : Key) (b : Bool) (ssl : Ssl) (cert : X509)
      → Owns (λ k. held_ssl ssl k + f k) h
      → (Succeeds env → (b ≡ true) × (ssl.cert ≡ some cert))
      → Runs
          (λ s h'.
            Owns (λ k. held_ssl s k + f k) h'
            × (Succeeds env → s ≡ record { cert = some cert; key = some key }))
          (use_key env key (b, ssl))
          h
  use_key-Runs {h} key false ssl cert v e = Runs-pure ssl h (v, λ all. impossible ((e all).0) refl)
  use_key-Runs key true ssl cert v e = Runs-bind (use_private_key-Runs key ssl v) λ r h1 w.
      Runs-pure r.1 h1 (
        w.0,
        λ all. ap (λ q. q.1) (w.1 all) ∙ ap (λ c. record { cert = c; key = some key }) (e all).1,
      )

  use_pair-Runs :
      {h : Heap} (cert : X509) (key : Key) (ssl : Ssl)
      → Owns (λ k. held_ssl ssl k + f k) h
      → Runs
          (λ s h'.
            Owns (λ k. held_ssl s k + f k) h'
            × (Succeeds env → s ≡ record { cert = some cert; key = some key }))
          (use_pair env ssl (some cert) (some key))
          h
  use_pair-Runs cert key ssl v = Runs-bind (use_certificate-Runs cert ssl v) λ r h1 w.
      use_key-Runs key r.0 r.1 cert w.0
        (λ all. (ap (λ q. q.0) (w.1 all), ap (λ q. q.1.cert) (w.1 all)))

-- What a connection presents if no call fails: for a name, a certificate that is good for it, with its key.
abbrev pub Presents : Env → X509 → Key → Option (List ℕ) → Ssl → Type 0
Presents env ca ca_key none ssl = ssl ≡ no_ssl
Presents env ca ca_key (some []) ssl = ssl ≡ no_ssl
Presents env ca ca_key (some (c ∷ cs)) ssl =
    (cert : X509) × (key : Key) × (ssl ≡ record { cert = some cert; key = some key })
    × IsGood env ca ca_key (c ∷ cs) (cert.content, key.secret)

-- A loaded store between two calls, with this CA.
pub record IsServing (env : Env) (ca : X509) (ca_key : Key) (s : CertStore) : Type 0 where
  pub idle : IsIdle env s
  pub loaded : s.ca_loaded ≡ true
  pub has_cert : s.ca_cert ≡ some ca
  pub has_key : s.ca_key ≡ some ca_key

module _ (env : Env) (pem : Pem) (pushes : Pushes env) (ca : X509) (ca_key : Key)
    (disk : Disk) where
  pair-Presents :
      (hostname : List ℕ) (s : CertStore) (v : IsServing env ca ca_key s) (pair : CertPair)
      → IsFor env (v.idle.loaded v.loaded).ca (v.idle.loaded v.loaded).ca_key hostname pair
      → IsFor env ca ca_key hostname pair
  pair-Presents hostname s v pair is_for =
      let t = v.idle.loaded v.loaded in
      subst (λ k. IsFor env ca k hostname pair)
        (some-injective t.ca_key ca_key (sym t.has_key ∙ v.has_key))
        (subst (λ c. IsFor env c t.ca_key hostname pair)
          (some-injective t.ca ca (sym t.has_cert ∙ v.has_cert)) is_for)

  -- After one handshake.
  abbrev Shakes : Option (List ℕ) → (ℕ → ℕ) → ℕ × Ssl × CertStore × Disk → Heap → Type 0
  Shakes name f r h =
      Owns (λ k. held_ssl r.1 k + (held r.2 k + f k)) h
      × (r.0 ≡ tlsext_err_ok)
      × (r.3 ≡ disk)
      × IsServing env ca ca_key r.2
      × (Succeeds env → Presents env ca ca_key name r.1)

  with_pair-Runs :
      {h : Heap} (f : ℕ → ℕ) (c : ℕ) (cs : List ℕ) (s : CertStore) (pair : CertPair)
      → IsServing env ca ca_key s
      → Owns (λ k. held_pair pair k + (held s k + f k)) h
      → ((pair ≡ no_pair) × (Succeeds env → ⊥)) ⊎ IsFor env ca ca_key (c ∷ cs) pair
      → Runs (Shakes (some (c ∷ cs)) f) (with_pair env pem no_ssl (pair, s, disk)) h
  with_pair-Runs {h} f c cs s pair serving v (inl (e, failed)) =
      let base = λ (k : ℕ). held s k + f k in
      rw e (
        Runs-bind
          (Runs-pure {P = λ ssl h'. (ssl ≡ no_ssl) × Owns base h'} no_ssl h
            (refl, Owns-same v (λ k. ap (λ p. held_pair p k + base k) e ∙ omega arith)))
          λ ssl h1 w.
            Runs-bind
              (Runs-bind (free_some-Runs {g = base} none w.1 (λ k. omega arith))
                λ u h2 x. free_some-Runs {g = base} none x (λ k. omega arith))
              λ u h2 x. Runs-pure _ h2 (
                Owns-same x (λ k. omega arith ∙ ap (λ t. held_ssl t k + base k) (sym w.0)),
                refl,
                refl,
                serving,
                λ all. absurd (failed all),
              ))
  with_pair-Runs {h} f c cs s pair serving v (inr (now, issued)) =
      let base = λ (k : ℕ). held s k + f k in
      rw issued.is_pair (
        Runs-bind
          (use_pair-Runs env
            (λ k. held_pair (record { cert = some issued.cert; key = some issued.key }) k + base k)
            issued.cert issued.key no_ssl
            (Owns-same v (λ k. ap (λ p. held_pair p k + base k) issued.is_pair ∙ omega arith)))
          λ ssl h1 w.
            Runs-bind
              (Runs-bind
                (free_some-Runs {g = λ k. occurs issued.key.id k + (held_ssl ssl k + base k)}
                  (some issued.cert.id) w.0 (λ k. omega arith))
                λ u h2 x.
                  free_some-Runs {g = λ k. held_ssl ssl k + base k} (some issued.key.id) x
                    (λ k. refl))
              λ u h2 x. Runs-pure _ h2 (
                x,
                refl,
                refl,
                serving,
                λ all. (
                  issued.cert,
                  issued.key,
                  w.1 all,
                  IsFor-IsGood env ca ca_key (c ∷ cs) issued.cert issued.key (
                    now,
                    subst (λ p. IsIssued env now (c ∷ cs) ca ca_key p) issued.is_pair issued,
                  ),
                ),
              ))

  pub sni_callback-Runs :
      {h : Heap} (f : ℕ → ℕ) (name : Option (List ℕ)) (s : CertStore)
      → IsServing env ca ca_key s
      → Owns (λ k. held s k + f k) h
      → Runs (Shakes name f) (sni_callback env pem name disk s no_ssl) h
  unfolding sni_callback
  sni_callback-Runs {h} f none s serving v =
      Runs-pure _ h (Owns-same v (λ k. omega arith), refl, refl, serving, λ all. refl)
  sni_callback-Runs {h} f (some []) s serving v =
      Runs-pure _ h (Owns-same v (λ k. omega arith), refl, refl, serving, λ all. refl)
  sni_callback-Runs {h} f (some (c ∷ cs)) s serving v =
      Runs-bind (answers-Runs env pem f pushes (c ∷ cs) disk s serving.idle serving.loaded v)
        λ r h1 x. rw x.0.same_disk (
          with_pair-Runs f c cs r.1 r.0
            (let still =
                still_serves env pem f pushes (c ∷ cs) disk s serving.idle serving.loaded r.0 r.1
                  r.2 x.0 in
              record {
                idle = still.1;
                loaded = still.0;
                has_cert = ap (λ t. t.ca_cert) x.0.same_store ∙ serving.has_cert;
                has_key = ap (λ t. t.ca_key) x.0.same_store ∙ serving.has_key;
              })
            x.0.owns (either r.0 x.0.answered))
    where
      either :
          (pair : CertPair)
          → ((pair ≡ no_pair) × (Succeeds env → ⊥))
            ⊎ IsFor env
                (serving.idle.loaded serving.loaded).ca
                (serving.idle.loaded serving.loaded).ca_key
                (c ∷ cs)
                pair
          → ((pair ≡ no_pair) × (Succeeds env → ⊥)) ⊎ IsFor env ca ca_key (c ∷ cs) pair
      either pair (inl e) = inl e
      either pair (inr e) = inr (pair-Presents (c ∷ cs) s serving pair e)
