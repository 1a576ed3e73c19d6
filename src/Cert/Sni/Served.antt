-- ===== src/Cert/Sni/Served.antt =====
-- What the handshakes are given, one after the other.
use webcm.Common.{ℕ, ◌+◌, ◌≡◌, List, [], ◌∷◌, Option, ok, arith}
use webcm.Cert.Heap.{Env, Heap}
use webcm.Cert.Rules.{Runs, Runs-pure, Runs-bind, Owns, Owns-same, Succeeds}
use webcm.Cert.Objects.{X509, Key, CertStore}
use webcm.Cert.Authority.{held}
use webcm.Cert.Leaf.{Pushes}
use webcm.Cert.Paths.{Disk}
use webcm.Cert.Disk.{Pem}
use webcm.Cert.Sni.{Ssl, tlsext_err_ok, handshakes}
use webcm.Cert.Sni.Shaken.{held_ssl, Presents, IsServing, sni_callback-Runs}

-- Every connection of a list presents what it should.
abbrev pub AllPresent : Env → X509 → Key → List (Option (List ℕ)) → List (ℕ × Ssl) → Type 0
AllPresent env ca ca_key [] [] = Unit {0}
AllPresent env ca ca_key [] (r ∷ rs) = ⊥
AllPresent env ca ca_key (name ∷ names) [] = ⊥
AllPresent env ca ca_key (name ∷ names) ((code, ssl) ∷ rs) =
    (code ≡ tlsext_err_ok)
    × (Succeeds env → Presents env ca ca_key name ssl)
    × AllPresent env ca ca_key names rs

abbrev pub held_ssls : List (ℕ × Ssl) → ℕ → ℕ
held_ssls [] k = 0
held_ssls ((code, ssl) ∷ rs) k = held_ssl ssl k + held_ssls rs k

module _ (env : Env) (pem : Pem) (pushes : Pushes env) (ca : X509) (ca_key : Key)
    (disk : Disk) where
  handshakes-Runs :
      {h : Heap} (f : ℕ → ℕ) (names : List (Option (List ℕ))) (s : CertStore)
      → IsServing env ca ca_key s
      → Owns (λ k. held s k + f k) h
      → Runs
          (λ r h'.
            Owns (λ k. held_ssls r.0 k + (held r.1 k + f k)) h'
            × IsServing env ca ca_key r.1
            × AllPresent env ca ca_key names r.0)
          (handshakes env pem names disk s)
          h
  unfolding handshakes
  handshakes-Runs {h} f [] s serving v = Runs-pure _ h (Owns-same v (λ k. omega arith), serving, tt)
  handshakes-Runs f (name ∷ names) s serving v =
      Runs-bind (sni_callback-Runs env pem pushes ca ca_key disk f name s serving v) λ first h1 w.
        rw w.2 (
          Runs-bind
            (handshakes-Runs (λ k. held_ssl first.1 k + f k) names first.2 w.3
              (Owns-same w.0 (λ k. omega arith)))
            λ rest h2 x. Runs-pure _ h2 (Owns-same x.0 (λ k. omega arith), x.1, (w.1, w.4, x.2)))

  -- With a CA loaded, and a stack that takes its names, the callback answers every handshake of any
  -- sequence with SSL_TLSEXT_ERR_OK, whatever else fails and whatever names it is given: it never waits
  -- for ever, and keeps the CA. Every object is released that neither the store nor a connection holds. If
  -- no call fails, a connection with a name presents a certificate for that name, signed by the CA,
  -- and its key; one without presents nothing.
  pub handshakes_lem :
      (names : List (Option (List ℕ))) (s : CertStore) (h : Heap)
      → IsServing env ca ca_key s
      → Owns (held s) h
      → (rs : List (ℕ × Ssl)) × (s' : CertStore) × (disk' : Disk) × (h' : Heap) × (handshakes env
            pem names disk s h
          ≡ ok ((rs, s', disk'), h'))
        × Owns (λ k. held_ssls rs k + held s' k) h'
        × IsServing env ca ca_key s'
        × AllPresent env ca ca_key names rs
  handshakes_lem names s h serving v =
      let r = handshakes-Runs (λ k. 0) names s serving (Owns-same v (λ k. omega arith)) in
      (
        r.value.0,
        r.value.1,
        r.value.2,
        r.after,
        r.returns,
        Owns-same r.holds.0 (λ k. omega arith),
        r.holds.1,
        r.holds.2,
      )
