-- ===== src/Cert/Start/Started.antt =====
-- What `main` starts, and that its handshakes are answered.
use webcm.Common.{
  ℕ, ◌+◌, ◌%◌, ◌^◌, ◌≡◌, ◌⊎◌, inl, inr, refl, ap, List, [], ◌∷◌, Bool, true, false, Bool-cases,
  if◌then◌else◌, Option, some, ok, arith,
}
use webcm.Cert.Heap.{Env, Heap}
use webcm.Cert.Rules.{
  Runs, Runs-pure, Runs-bind, Runs-as, Runs-returns, impossible, Owns, Owns-same, Succeeds,
}
use webcm.Cert.Objects.{X509, Key, CertStore, new_store}
use webcm.Cert.Authority.{held}
use webcm.Cert.Leaf.{Pushes}
use webcm.Cert.Paths.{Disk}
use webcm.Cert.Disk.{Pem, PemLaws}
use webcm.Cert.Files.Plain.{IsPlain}
use webcm.Cert.Serving.{IsIdle, new_store-IsIdle}
use webcm.Cert.Serving.Ready.{ensure_ca-Runs}
use webcm.Cert.Sni.{Ssl, handshakes}
use webcm.Cert.Sni.Served.{AllPresent, held_ssls, handshakes_lem}
use webcm.Cert.Start.{
  v4, Server, dns_udp_server, dns_tcp_server, listener, Exit, exit_failure, terminated, running,
  Surroundings, servers, port_of, with_ca, with_address, proxy_main,
}

-- How `main` ends, from this disk: it fails because a call failed, or a link or a directory is in the way, or an exception ends it, or it serves with a CA.
abbrev pub IsStart : Env → Surroundings → Disk → Exit → List Server → CertStore → Type 0
IsStart env around disk exit expected s =
    ((exit ≡ exit_failure) × (IsPlain disk → Succeeds env → ⊥))
    ⊎ ((exit ≡ terminated) × (around.udp_bound ≡ false))
    ⊎ ((exit ≡ running expected) × IsIdle env s × (s.ca_loaded ≡ true))

module _ (env : Env) (pem : Pem) (laws : PemLaws pem) (around : Surroundings) where
  with_ca-Runs :
      {h : Heap} (start : Disk) (ip port1 port2 : ℕ) (b : Bool) (s : CertStore) (disk : Disk)
      → Owns (held s) h
      → IsIdle env s
      → s.ca_loaded ≡ b
      → (IsPlain start → Succeeds env → b ≡ true)
      → Runs
          (λ r h'. Owns (held r.1) h' × IsStart env around start r.0 (servers ip port1 port2) r.1)
          (with_ca env pem around ip port1 port2 (b, s, disk))
          h
  with_ca-Runs {h} start ip port1 port2 false s disk v idle e all =
      Runs-pure _ h (v, inl (refl, λ p a. impossible (all p a) refl))
  with_ca-Runs {h} start ip port1 port2 true s disk v idle e all = Runs-pure _ h (
    v,
    elim (Bool-cases around.udp_bound) [
      | inl bound ↦ inr (
          inr (ap (λ c. if c then running (servers ip port1 port2) else terminated) bound, idle, e))
      | inr unbound ↦ inr (
          inl
            (ap (λ c. if c then running (servers ip port1 port2) else terminated) unbound, unbound))
    ],
  )

  start-Runs :
      {h : Heap} (ip port1 port2 : ℕ) (disk : Disk)
      → Owns (λ k. 0) h
      → Runs
          (λ r h'. Owns (held r.1) h' × IsStart env around disk r.0 (servers ip port1 port2) r.1)
          (with_address env pem around port1 port2 disk (some (v4 ip)))
          h
  start-Runs ip port1 port2 disk v =
      Runs-bind
        (ensure_ca-Runs env pem laws (λ k. 0) disk new_store (new_store-IsIdle env)
          (Owns-same v (λ k. omega arith)))
        λ r h1 w.
          with_ca-Runs disk ip port1 port2 r.0 r.1 r.2 (Owns-same w.0 (λ k. omega arith)) w.1 w.2
            w.3

  proxy_main-Runs :
      {h : Heap} (program a b c : List ℕ) (ip : ℕ) (disk : Disk)
      → around.make_address a ≡ some (v4 ip)
      → Owns (λ k. 0) h
      → Runs
          (λ r h'.
            Owns (held r.1) h'
            × IsStart env around disk r.0
                (dns_udp_server ip 53 ip
                  ∷ dns_tcp_server ip 53 ip
                  ∷ listener ip (around.strtol b % 2 ^ 16)
                  ∷ listener ip (around.strtol c % 2 ^ 16)
                  ∷ [])
                r.1)
          (proxy_main env pem around (program ∷ a ∷ b ∷ c ∷ []) disk)
          h
  unfolding proxy_main
  proxy_main-Runs program a b c ip disk e v =
      Runs-as
        (ap
          (λ o.
            with_address env pem around (port_of env pem around b) (port_of env pem around c) disk
              o)
          e)
        (start-Runs ip (port_of env pem around b) (port_of env pem around c) disk v)

  pub proxy_main_lem :
      (program a b c : List ℕ) (ip : ℕ) (disk : Disk) (h : Heap)
      → around.make_address a ≡ some (v4 ip)
      → Owns (λ k. 0) h
      → (exit : Exit) × (s : CertStore) × (disk' : Disk) × (h' : Heap) × (proxy_main env pem around
            (program ∷ a ∷ b ∷ c ∷ [])
            disk
            h
          ≡ ok ((exit, s, disk'), h'))
        × Owns (held s) h'
        × IsStart env around disk exit
            (dns_udp_server ip 53 ip
              ∷ dns_tcp_server ip 53 ip
              ∷ listener ip (around.strtol b % 2 ^ 16)
              ∷ listener ip (around.strtol c % 2 ^ 16)
              ∷ [])
            s
  proxy_main_lem program a b c ip disk h e v =
      let r = proxy_main-Runs program a b c ip disk e v in
      (r.value.0, r.value.1, r.value.2, r.after, r.returns, r.holds.0, r.holds.1)

  -- Once `main` serves, at an IPv4 address, with PEM that is read as it was written, the callback answers
  -- every handshake of any sequence with
  -- SSL_TLSEXT_ERR_OK, whatever names it is given and whatever fails but the stack of names: it never waits
  -- for ever. Every object is released that neither the store nor a connection holds. If no call fails, a
  -- connection with a name presents a certificate for that name, signed by the CA that `main` loaded,
  -- and its key; one without presents nothing.
  pub proxy_main-handshakes :
      (pushes : Pushes env) (program a b c : List ℕ) (ip : ℕ) (disk : Disk) (h : Heap)
      → around.make_address a ≡ some (v4 ip)
      → Owns (λ k. 0) h
      → (started : List Server) (s : CertStore) (disk' : Disk) (h' : Heap)
      → proxy_main env pem around (program ∷ a ∷ b ∷ c ∷ []) disk h
        ≡ ok ((running started, s, disk'), h')
      → (names : List (Option (List ℕ)))
      → (ca : X509) × (ca_key : Key) × (s.ca_cert ≡ some ca)
        × (s.ca_key ≡ some ca_key)
        × (rs : List (ℕ × Ssl)) × (s' : CertStore) × (disk'' : Disk) × (h'' : Heap) × (handshakes
              env pem names disk' s h'
            ≡ ok ((rs, s', disk''), h''))
        × Owns (λ k. held_ssls rs k + held s' k) h''
        × AllPresent env ca ca_key names rs
  proxy_main-handshakes pushes program a b c ip disk h e v started s disk' h' ends names =
      let r = Runs-returns (proxy_main-Runs program a b c ip disk e v) ends in served r.0 r.1
    where
      served :
          Owns (held s) h'
          → IsStart env around disk
              (running started)
              (dns_udp_server ip 53 ip
                ∷ dns_tcp_server ip 53 ip
                ∷ listener ip (around.strtol b % 2 ^ 16)
                ∷ listener ip (around.strtol c % 2 ^ 16)
                ∷ [])
              s
          → (ca : X509) × (ca_key : Key) × (s.ca_cert ≡ some ca)
            × (s.ca_key ≡ some ca_key)
            × (rs : List (ℕ × Ssl)) × (s' : CertStore) × (disk'' : Disk) × (h'' : Heap)
            × (handshakes env pem names disk' s h' ≡ ok ((rs, s', disk''), h''))
            × Owns (λ k. held_ssls rs k + held s' k) h''
            × AllPresent env ca ca_key names rs
      served w (inl x) = absurd (cc (x.0))
      served w (inr (inl x)) = absurd (cc (x.0))
      served w (inr (inr (same, idle, loaded))) =
          let t = idle.loaded loaded in
          let r =
            handshakes_lem env pem pushes t.ca t.ca_key disk' names s h'
              (record { idle = idle; loaded = loaded; has_cert = t.has_cert; has_key = t.has_key })
              w in
          (t.ca, t.ca_key, t.has_cert, t.has_key, r.0, r.1, r.2, r.3, r.4, r.5, r.7)
