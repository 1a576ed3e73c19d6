-- ===== src/Cert/Sni.antt =====
-- `sni_callback` of https-proxy/https-proxy.cpp, which OpenSSL calls in a handshake.
pub mod Shaken
pub mod Served
use webcm.Common.{ℕ, Bool, true, false, if◌then◌else◌, Option, none, some, List, [], ◌∷◌}
use webcm.Cert.Heap.{
  ssl_use_certificate, ssl_use_private_key, Env, Action, pure, ◌>>=◌, ◌>>◌, retain, free_some, ask,
}
use webcm.Cert.Objects.{X509, Key, CertPair, CertStore, cert_id, key_id}
use webcm.Cert.Paths.{Disk}
use webcm.Cert.Disk.{Pem}
use webcm.Cert.Store.{release, issue_for_host}

-- The certificate and the key that a connection presents. It owns references to them.
pub record Ssl : Type 0 where
  pub cert : Option X509
  pub key : Option Key

abbrev pub no_ssl : Ssl
no_ssl = record { cert = none; key = none }

-- `SSL_TLSEXT_ERR_OK`
abbrev pub tlsext_err_ok : ℕ
tlsext_err_ok = 0

module _ (env : Env) where
  -- `SSL_use_certificate` and `SSL_use_PrivateKey`: the new reference is taken, the old one released.
  unfoldable pub use_certificate : X509 → Ssl → Action (Bool × Ssl)
  use_certificate cert ssl = do
    used ← ask env ssl_use_certificate
    if used
        then (do
          retain cert.id
          free_some (cert_id ssl.cert)
          pure (true, record ssl { cert = some cert }))
        else pure (false, ssl)

  unfoldable pub use_private_key : Key → Ssl → Action (Bool × Ssl)
  use_private_key key ssl = do
    used ← ask env ssl_use_private_key
    if used
        then (do
          retain key.id
          free_some (key_id ssl.key)
          pure (true, record ssl { key = some key }))
        else pure (false, ssl)

  -- `&&`: the key is set if the certificate is.
  abbrev pub use_key : Key → Bool × Ssl → Action Ssl
  use_key key (false, ssl) = pure ssl
  use_key key (true, ssl) = do used ← use_private_key key ssl; pure (used.1)

  abbrev pub use_pair : Ssl → Option X509 → Option Key → Action Ssl
  use_pair ssl (some cert) (some key) = use_certificate cert ssl >>= use_key key
  use_pair ssl none key = pure ssl
  use_pair ssl (some cert) none = pure ssl

  module _ (pem : Pem) where
    -- The pair is used, and released at the end of its scope.
    abbrev pub with_pair : Ssl → CertPair × CertStore × Disk → Action (ℕ × Ssl × CertStore × Disk)
    with_pair ssl (pair, store, disk) = do
      ssl' ← use_pair ssl pair.cert pair.key
      release (some pair)
      pure (tlsext_err_ok, ssl', store, disk)

    -- The server name is a null pointer, empty, or a name.
    unfoldable pub sni_callback :
        Option (List ℕ) → Disk → CertStore → Ssl → Action (ℕ × Ssl × CertStore × Disk)
    sni_callback none disk store ssl = pure (tlsext_err_ok, ssl, store, disk)
    sni_callback (some []) disk store ssl = pure (tlsext_err_ok, ssl, store, disk)
    sni_callback (some (c ∷ cs)) disk store ssl =
        issue_for_host env pem (c ∷ cs) disk store >>= with_pair ssl

    -- One handshake after the other, each on a connection of its own.
    unfoldable pub handshakes :
        List (Option (List ℕ)) → Disk → CertStore → Action (List (ℕ × Ssl) × CertStore × Disk)
    handshakes [] disk store = pure ([], store, disk)
    handshakes (name ∷ names) disk store = do
      first ← sni_callback name disk store no_ssl
      rest ← handshakes names first.3 first.2
      pure ((first.0, first.1) ∷ rest.0, rest.1, rest.2)
