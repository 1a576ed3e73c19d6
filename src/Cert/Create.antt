-- ===== src/Cert/Create.antt =====
-- `create_ca` and `create_cert_for_host` of https-proxy/cert_store.cpp. `now` is the time in seconds.
use webcm.Common.{ℕ, ◌+◌, Bool, true, false, Option, none, some, List, [], ◌∷◌, if◌then◌else◌}
use webcm.Cert.Heap.{
  x509_new, x509_sign, x509_set_version, x509_set_serial, x509_set_not_before, x509_set_not_after,
  x509_set_subject_name, x509_set_issuer_name, x509_set_pubkey, x509_name_new, x509v3_ext_conf_nid,
  x509v3_ext_i2d, rand_bytes, bn_bin2bn, asn1_integer_new, bn_to_asn1_integer, sk_general_name_new,
  sk_general_name_push, general_name_new, asn1_string_new, asn1_string_set, Env, Action, pure,
  ◌>>=◌, ◌>>◌, free, ask, create, try, serial,
}
use webcm.Cert.Objects.{
  Name, basic_constraints, key_usage, subject_alt_name, blank, X509, Key, ca_name, host_name,
  generate_key, add_entries, try_content, set_name, add_extension, set_subject, set_issuer,
  CertPair, no_pair, CertStore, reset_ca,
}

module _ (env : Env) where
  -- `X509_NAME_new`, the entries, what is done with the name, and `X509_NAME_free`.
  abbrev pub with_name : Name → (Option Name → X509 → Action X509) → X509 → Option ℕ → Action X509
  with_name entries use_name cert none = use_name none cert
  with_name entries use_name cert (some id) = do
    name ← add_entries env entries []
    cert' ← use_name (some name) cert
    free id
    pure cert'

  unfoldable pub named : Name → (Option Name → X509 → Action X509) → X509 → Action X509
  named entries use_name cert = create env x509_name_new >>= with_name entries use_name cert

  -- The name of the CA is its subject and its issuer.
  unfoldable pub ca_named : Option Name → X509 → Action X509
  ca_named name cert = do
    cert ← set_name env x509_set_subject_name set_subject name cert
    set_name env x509_set_issuer_name set_issuer name cert

  unfoldable pub set_validity : ℕ → ℕ → X509 → Action X509
  set_validity now seconds cert = do
    cert ← try_content env x509_set_not_before (λ c. record c { not_before = now }) cert
    try_content env x509_set_not_after (λ c. record c { not_after = now + seconds }) cert

  -- `create_ca`, from the version to the extensions.
  unfoldable pub fill_ca : ℕ → Key → X509 → Action X509
  fill_ca now key cert = do
    cert ← try_content env x509_set_version (λ c. record c { version = 2 }) cert
    cert ← try_content env x509_set_serial (λ c. record c { serial = 1 }) cert
    cert ← set_validity now 315360000 cert
    cert ← named ca_name ca_named cert
    cert ← try_content env x509_set_pubkey (λ c. record c { public_key = some key.secret }) cert
    cert ← add_extension env x509v3_ext_conf_nid basic_constraints cert
    add_extension env x509v3_ext_conf_nid key_usage cert

  -- `X509_sign`, and the releases if it fails.
  unfoldable pub sign : Key → Key → X509 → Action (Option X509)
  sign signer key cert = do
    done ← ask env x509_sign
    if done
        then pure (
            some (record cert { content = record cert.content { signed_by = some signer.secret } }))
        else (do free cert.id; free key.id; pure none)

  abbrev pub ca_signed : CertStore → Key → Option X509 → Action (Bool × CertStore)
  ca_signed store key none = pure (false, store)
  ca_signed store key (some cert) = do store' ← reset_ca cert key store; pure (true, store')

  abbrev pub ca_with_cert : ℕ → CertStore → Key → Option ℕ → Action (Bool × CertStore)
  ca_with_cert now store key none = free key.id >> pure (false, store)
  ca_with_cert now store key (some id) = do
    cert ← fill_ca now key (record { id = id; content = blank })
    signed ← sign key key cert
    ca_signed store key signed

  abbrev pub ca_with_key : ℕ → CertStore → Option Key → Action (Bool × CertStore)
  ca_with_key now store none = pure (false, store)
  ca_with_key now store (some key) = create env x509_new >>= ca_with_cert now store key

  unfoldable pub create_ca : ℕ → CertStore → Action (Bool × CertStore)
  create_ca now store = generate_key env >>= ca_with_key now store

-- A `GENERAL_NAME` in the stack, with the string that it owns.
pub record GeneralName : Type 0 where
  pub id : ℕ
  pub string_id : ℕ
  pub text : List ℕ

abbrev pub texts : Option GeneralName → List (List ℕ)
texts none = []
texts (some san) = san.text ∷ []

-- `sk_GENERAL_NAME_pop_free`: the name, its string, and the stack.
unfoldable pub pop_free : ℕ → Option GeneralName → Action (Unit {0})
pop_free stack none = free stack
pop_free stack (some san) = do free san.string_id; free san.id; free stack

module _ (env : Env) where
  -- The result of the push is ignored: a name that is not pushed is left behind.
  abbrev pub push_name : List ℕ → ℕ → ℕ → Action (Option GeneralName)
  push_name hostname san string = do
    text ← try env asn1_string_set (λ _. hostname) []
    pushed ← ask env sk_general_name_push
    pure (if pushed then some (record { id = san; string_id = string; text = text }) else none)

  abbrev pub with_string : List ℕ → ℕ → Option ℕ → Action (Option GeneralName)
  with_string hostname san none = free san >> pure none
  with_string hostname san (some string) = push_name hostname san string

  abbrev pub with_san : List ℕ → Option ℕ → Action (Option GeneralName)
  with_san hostname none = pure none
  with_san hostname (some san) = create env asn1_string_new >>= with_string hostname san

  -- `if (san) { ... }`
  unfoldable pub alt_name : List ℕ → Action (Option GeneralName)
  alt_name hostname = create env general_name_new >>= with_san hostname

  abbrev pub with_stack : List ℕ → X509 → Option ℕ → Action X509
  with_stack hostname cert none = pure cert
  with_stack hostname cert (some stack) = do
    san ← alt_name hostname
    cert' ← add_extension env x509v3_ext_i2d (subject_alt_name (texts san)) cert
    pop_free stack san
    pure cert'

  unfoldable pub add_alt_name : List ℕ → X509 → Action X509
  add_alt_name hostname cert = create env sk_general_name_new >>= with_stack hostname cert

  unfoldable pub host_named : Option Name → X509 → Action X509
  host_named name cert = set_name env x509_set_subject_name set_subject name cert

  -- The serial number, from the random bytes to `ASN1_INTEGER_free`; a failure releases the certificate
  -- and the key.
  abbrev pub give_up : X509 → Key → Action (Option X509)
  give_up cert key = do free cert.id; free key.id; pure none

  abbrev pub with_integer : X509 → Key → ℕ → ℕ → Option ℕ → Action (Option X509)
  with_integer cert key number bn none = free bn >> give_up cert key
  with_integer cert key number bn (some integer) = do
    value ← try env bn_to_asn1_integer (λ _. number) 0
    free bn
    cert' ← try_content env x509_set_serial (λ c. record c { serial = value }) cert
    free integer
    pure (some cert')

  abbrev pub with_bignum : X509 → Key → ℕ → Option ℕ → Action (Option X509)
  with_bignum cert key number none = give_up cert key
  with_bignum cert key number (some bn) =
      create env asn1_integer_new >>= with_integer cert key number bn

  abbrev pub with_bytes : X509 → Key → Bool → Action (Option X509)
  with_bytes cert key false = give_up cert key
  with_bytes cert key true = do
    number ← serial env
    bn ← create env bn_bin2bn
    with_bignum cert key number bn

  unfoldable pub random_serial : X509 → Key → Action (Option X509)
  random_serial cert key = ask env rand_bytes >>= with_bytes cert key

  -- From the validity to the alternative name.
  unfoldable pub fill_host : ℕ → List ℕ → X509 → Key → X509 → Action X509
  fill_host now hostname ca key cert = do
    cert ← set_validity env now 31536000 cert
    cert ← named env (host_name hostname) host_named cert
    cert ← try_content env x509_set_issuer_name (set_issuer ca.content.subject) cert
    cert ← try_content env x509_set_pubkey (λ c. record c { public_key = some key.secret }) cert
    add_alt_name hostname cert

  abbrev pub host_pair : Key → Option X509 → CertPair
  host_pair key none = no_pair
  host_pair key (some cert) = record { cert = some cert; key = some key }

  abbrev pub host_signed : ℕ → List ℕ → X509 → Key → Key → Option X509 → Action CertPair
  host_signed now hostname ca ca_key key none = pure no_pair
  host_signed now hostname ca ca_key key (some cert) = do
    cert' ← fill_host now hostname ca key cert
    signed ← sign env ca_key key cert'
    pure (host_pair key signed)

  abbrev pub host_with_cert : ℕ → List ℕ → X509 → Key → Key → Option ℕ → Action CertPair
  host_with_cert now hostname ca ca_key key none = free key.id >> pure no_pair
  host_with_cert now hostname ca ca_key key (some id) = do
    cert ←
        try_content env x509_set_version (λ c. record c { version = 2 })
          (record { id = id; content = blank })
    numbered ← random_serial cert key
    host_signed now hostname ca ca_key key numbered

  abbrev pub host_with_key : ℕ → List ℕ → X509 → Key → Option Key → Action CertPair
  host_with_key now hostname ca ca_key none = pure no_pair
  host_with_key now hostname ca ca_key (some key) =
      create env x509_new >>= host_with_cert now hostname ca ca_key key

  abbrev pub host_with_ca : ℕ → List ℕ → Option X509 → Option Key → Action CertPair
  host_with_ca now hostname (some ca) (some ca_key) =
      generate_key env >>= host_with_key now hostname ca ca_key
  host_with_ca now hostname none ca_key = pure no_pair
  host_with_ca now hostname (some ca) none = pure no_pair

  unfoldable pub create_cert_for_host : ℕ → List ℕ → CertStore → Action CertPair
  create_cert_for_host now hostname store = host_with_ca now hostname store.ca_cert store.ca_key
