-- ===== src/Cert/Start.antt =====
-- `main` of https-proxy/https-proxy.cpp: the arguments, the CA, and what is started. How the library reads
-- an address and a number is a parameter.
pub mod Started
use webcm.Common.{
  ℕ, ◌+◌, ◌%◌, ◌^◌, Bool, true, false, if◌then◌else◌, Option, none, some, List, [], ◌∷◌,
}
use webcm.Cert.Heap.{Env, Action, pure, ◌>>=◌}
use webcm.Cert.Objects.{CertStore, new_store}
use webcm.Cert.Paths.{Disk}
use webcm.Cert.Disk.{Pem}
use webcm.Cert.Store.{ensure_ca}

-- An address: an IPv4 one is its number, the others are not told apart.
pub data Address : Type 0 where
  v4 : ℕ → Address
  v6 : Address

-- What is made and run: the address and the port that it listens at, and the address in its answers.
pub data Server : Type 0 where
  dns_udp_server : ℕ → ℕ → ℕ → Server
  dns_tcp_server : ℕ → ℕ → ℕ → Server
  listener : ℕ → ℕ → Server

-- `EXIT_FAILURE`, an exception that nobody catches, or the servers that `ioc.run()` serves.
pub data Exit : Type 0 where
  exit_failure terminated : Exit
  running : List Server → Exit

-- `make_address` throws for what is no address; `strtol` gives the 64 bits of a `long`; and the UDP
-- server throws if its socket cannot be bound.
pub record Surroundings : Type 0 where
  pub make_address : List ℕ → Option Address
  pub strtol : List ℕ → ℕ
  pub udp_bound : Bool

-- The servers, in their order.
abbrev pub servers : ℕ → ℕ → ℕ → List Server
servers ip port1 port2 =
    dns_udp_server ip 53 ip ∷ dns_tcp_server ip 53 ip ∷ listener ip port1 ∷ listener ip port2 ∷ []

module _ (env : Env) (pem : Pem) (around : Surroundings) where
  -- `static_cast<uint16_t>(std::strtol(arg, nullptr, 10))`
  abbrev pub port_of : List ℕ → ℕ
  port_of arg = around.strtol arg % 2 ^ 16

  abbrev pub with_ca : ℕ → ℕ → ℕ → Bool × CertStore × Disk → Action (Exit × CertStore × Disk)
  with_ca ip port1 port2 (false, store, disk) = pure (exit_failure, store, disk)
  with_ca ip port1 port2 (true, store, disk) =
      pure (if around.udp_bound then running (servers ip port1 port2) else terminated, store, disk)

  abbrev pub with_address : ℕ → ℕ → Disk → Option Address → Action (Exit × CertStore × Disk)
  with_address port1 port2 disk none = pure (terminated, new_store, disk)
  with_address port1 port2 disk (some v6) = pure (exit_failure, new_store, disk)
  with_address port1 port2 disk (some (v4 ip)) =
      ensure_ca env pem disk new_store >>= with_ca ip port1 port2

  -- `argc != 4` is for all but the fifth clause.
  unfoldable pub proxy_main : List (List ℕ) → Disk → Action (Exit × CertStore × Disk)
  proxy_main [] disk = pure (exit_failure, new_store, disk)
  proxy_main (program ∷ []) disk = pure (exit_failure, new_store, disk)
  proxy_main (program ∷ a ∷ []) disk = pure (exit_failure, new_store, disk)
  proxy_main (program ∷ a ∷ b ∷ []) disk = pure (exit_failure, new_store, disk)
  proxy_main (program ∷ a ∷ b ∷ c ∷ []) disk =
      with_address (port_of b) (port_of c) disk (around.make_address a)
  proxy_main (program ∷ a ∷ b ∷ c ∷ d ∷ rest) disk = pure (exit_failure, new_store, disk)
