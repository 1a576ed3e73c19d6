-- ===== src/Cert/Tests/Serve.antt =====
-- The program that starts, and its handshakes, on a machine with no files where every call succeeds.
use webcm.Common.{ℕ, ◌+◌, ◌≡◌, ◌∙◌, ap, refl, List, [], ◌∷◌, true, none, some, ok, inl, inr}
use webcm.Cert.Heap.{Heap}
use webcm.Cert.Rules.{Owns, impossible}
use webcm.Cert.Objects.{X509, Key, CertStore}
use webcm.Cert.Authority.{held}
use webcm.Cert.Paths.{Disk}
use webcm.Cert.Sni.{Ssl, handshakes}
use webcm.Cert.Sni.Served.{AllPresent, held_ssls}
use webcm.Cert.Start.{
  v4, Exit, running, Server, dns_udp_server, dns_tcp_server, listener, Surroundings, proxy_main,
}
use webcm.Cert.Start.Started.{IsStart, proxy_main_lem, proxy_main-handshakes}
use webcm.Cert.Tests.{calm, start, bare, bare_plain}
use webcm.Cert.Tests.Text.{plain_pem, plain_laws}

-- Every text is the address 127.254.254.254 and the number 70000.
abbrev around : Surroundings
around = record { make_address = λ a. some (v4 2147418878); strtol = λ a. 70000; udp_bound = true }

start_empty : Owns (λ k. 0) start
start_empty = record { owned = λ k. refl }

-- What it serves there.
abbrev at_home : ℕ → ℕ → List Server
at_home port1 port2 =
    dns_udp_server 2147418878 53 2147418878
    ∷ dns_tcp_server 2147418878 53 2147418878
    ∷ listener 2147418878 port1
    ∷ listener 2147418878 port2
    ∷ []

-- The run that the witnesses are about.
run_of_main :
    (exit : Exit) × (s : CertStore) × (disk' : Disk) × (h' : Heap) × (proxy_main calm plain_pem
        around
        ([] ∷ [] ∷ [] ∷ [] ∷ [])
        bare
        start
      ≡ ok ((exit, s, disk'), h'))
    × Owns (held s) h'
    × IsStart calm around bare exit (at_home 4464 4464) s
run_of_main =
    proxy_main_lem calm plain_pem plain_laws around [] [] [] [] 2147418878 bare start refl
      start_empty

is_running :
    (exit : Exit) (s : CertStore)
    → IsStart calm around bare exit (at_home 4464 4464) s
    → exit ≡ running (at_home 4464 4464)
is_running exit s (inl x) = absurd (x.1 bare_plain (λ call n. refl))
is_running exit s (inr (inl x)) = impossible refl x.1
is_running exit s (inr (inr x)) = x.0

proxy_main-handshakes_example :
    (ca : X509) × (ca_key : Key) × (run_of_main.1.ca_cert ≡ some ca)
    × (run_of_main.1.ca_key ≡ some ca_key)
    × (rs : List (ℕ × Ssl)) × (s' : CertStore) × (disk'' : Disk) × (h'' : Heap) × (handshakes calm
          plain_pem
          (some (108 ∷ []) ∷ none ∷ some (108 ∷ []) ∷ [])
          run_of_main.2
          run_of_main.1
          run_of_main.3
        ≡ ok ((rs, s', disk''), h''))
    × Owns (λ k. held_ssls rs k + held s' k) h''
    × AllPresent calm ca ca_key (some (108 ∷ []) ∷ none ∷ some (108 ∷ []) ∷ []) rs
proxy_main-handshakes_example =
    proxy_main-handshakes calm plain_pem plain_laws around (λ n. refl) [] [] [] [] 2147418878 bare
      start refl start_empty (at_home 4464 4464) run_of_main.1 run_of_main.2 run_of_main.3
      (run_of_main.4
        ∙ ap (λ exit. ok ((exit, run_of_main.1, run_of_main.2), run_of_main.3))
            (is_running run_of_main.0 run_of_main.1 run_of_main.6))
      (some (108 ∷ []) ∷ none ∷ some (108 ∷ []) ∷ [])
