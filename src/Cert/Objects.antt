-- ===== src/Cert/Objects.antt =====
-- Certificates and keys, and the steps that https-proxy/cert_store.cpp builds them in. While a
-- certificate is built only one variable points to it, so what is in it goes with the pointer.
use webcm.Common.{ℕ, Bool, true, false, Option, none, some, List, [], ◌∷◌, ◌++◌}
use webcm.Cert.Heap.{
  Call, pkey_new, pkey_ctx_new_id, pkey_keygen_init, pkey_set_curve, pkey_keygen,
  x509_name_add_entry, x509_add_ext, Env, Action, pure, ◌>>=◌, ◌>>◌, free, free_some, create, try,
  all_succeed, secret,
}

-- The entries of a name: the field and its text.
abbrev pub Name : Type 0
Name = List (List ℕ × List ℕ)

-- The extensions that the code asks for: `CA:TRUE`, `keyCertSign, cRLSign`, and the alternative names.
pub data Extension : Type 0 where
  basic_constraints key_usage : Extension
  subject_alt_name : List (List ℕ) → Extension

-- The content of an `X509`. Keys stand for themselves by their secret; `signed_by` is that of the key that
-- signed it.
pub record Certificate : Type 0 where
  pub version : ℕ
  pub serial : ℕ
  pub not_before : ℕ
  pub not_after : ℕ
  pub subject : Name
  pub issuer : Name
  pub public_key : Option ℕ
  pub extensions : List Extension
  pub signed_by : Option ℕ

-- What `X509_new` makes.
abbrev pub blank : Certificate
blank = record {
  version = 0;
  serial = 0;
  not_before = 0;
  not_after = 0;
  subject = [];
  issuer = [];
  public_key = none;
  extensions = [];
  signed_by = none;
}

-- The pointers `X509 *` and `EVP_PKEY *`, with what they point to.
pub record X509 : Type 0 where
  pub id : ℕ
  pub content : Certificate

pub record Key : Type 0 where
  pub id : ℕ
  pub secret : ℕ

-- `C`
abbrev pub country : List ℕ
country = 67 ∷ []

-- `US`
abbrev pub country_us : List ℕ
country_us = 85 ∷ 83 ∷ []

-- `O`
abbrev pub organisation : List ℕ
organisation = 79 ∷ []

-- `WebCM`
abbrev pub product : List ℕ
product = 87 ∷ 101 ∷ 98 ∷ 67 ∷ 77 ∷ []

-- `CN`
abbrev pub common_name : List ℕ
common_name = 67 ∷ 78 ∷ []

-- `WebCM MITM CA`
abbrev pub webcm_ca : List ℕ
webcm_ca = 87 ∷ 101 ∷ 98 ∷ 67 ∷ 77 ∷ 32 ∷ 77 ∷ 73 ∷ 84 ∷ 77 ∷ 32 ∷ 67 ∷ 65 ∷ []

-- The subject of the CA, and of a host, whose name is a C string and holds no null byte.
abbrev pub ca_name : Name
ca_name = (country, country_us) ∷ (organisation, product) ∷ (common_name, webcm_ca) ∷ []

abbrev pub host_name : List ℕ → Name
host_name hostname = (country, country_us) ∷ (organisation, product) ∷ (common_name, hostname) ∷ []

module _ (env : Env) where
  -- `EVP_PKEY_new`, `EVP_PKEY_CTX_new_id` and the three steps of the generation, with their releases.
  abbrev pub generated_key : ℕ → Bool → Action (Option Key)
  generated_key id false = free id >> pure none
  generated_key id true = do
    generated ← secret env
    pure (some (record { id = id; secret = generated }))

  abbrev pub with_context : ℕ → Option ℕ → Action (Option Key)
  with_context id none = free id >> pure none
  with_context id (some ctx) = do
    done ← all_succeed env (pkey_keygen_init ∷ pkey_set_curve ∷ pkey_keygen ∷ [])
    free ctx
    generated_key id done

  abbrev pub with_key : Option ℕ → Action (Option Key)
  with_key none = pure none
  with_key (some id) = create env pkey_ctx_new_id >>= with_context id

  unfoldable pub generate_key : Action (Option Key)
  generate_key = create env pkey_new >>= with_key

  -- `X509_NAME_add_entry_by_txt`, for each entry; with no name it does nothing.
  unfoldable pub add_entries : Name → Name → Action Name
  add_entries [] name = pure name
  add_entries (entry ∷ entries) name = do
    name' ← try env x509_name_add_entry (λ n. n ++ (entry ∷ [])) name
    add_entries entries name'

  unfoldable pub try_content : Call → (Certificate → Certificate) → X509 → Action X509
  try_content call f cert = try env call (λ c. record c { content = f c.content }) cert

  -- A setter that is given a name, or a null pointer for lack of one.
  unfoldable pub set_name :
      Call → (Name → Certificate → Certificate) → Option Name → X509 → Action X509
  unfolding try_content
  set_name call f none cert = pure cert
  set_name call f (some name) cert = try_content call (f name) cert

  -- `X509V3_EXT_conf_nid` or `X509V3_EXT_i2d`, `X509_add_ext` and `X509_EXTENSION_free`.
  abbrev pub with_extension : Extension → X509 → Option ℕ → Action X509
  with_extension extension cert none = pure cert
  with_extension extension cert (some id) = do
    cert' ←
        try_content x509_add_ext (λ c. record c { extensions = c.extensions ++ (extension ∷ []) })
          cert
    free id
    pure cert'

  unfoldable pub add_extension : Call → Extension → X509 → Action X509
  unfolding try_content
  add_extension call extension cert = create env call >>= with_extension extension cert

abbrev pub set_subject : Name → Certificate → Certificate
set_subject name c = record c { subject = name }

abbrev pub set_issuer : Name → Certificate → Certificate
set_issuer name c = record c { issuer = name }

-- `cert_pair`, and the members of `cert_store`. The cache is an association list; `locked` is `mutex_`.
pub record CertPair : Type 0 where
  pub cert : Option X509
  pub key : Option Key

abbrev pub no_pair : CertPair
no_pair = record { cert = none; key = none }

pub record CertStore : Type 0 where
  pub ca_cert : Option X509
  pub ca_key : Option Key
  pub cert_cache : List (List ℕ × CertPair)
  pub locked : Bool
  pub ca_loaded : Bool

-- The constructor.
abbrev pub new_store : CertStore
new_store = record {
  ca_cert = none;
  ca_key = none;
  cert_cache = [];
  locked = false;
  ca_loaded = false;
}

abbrev pub cert_id : Option X509 → Option ℕ
cert_id none = none
cert_id (some cert) = some cert.id

abbrev pub key_id : Option Key → Option ℕ
key_id none = none
key_id (some key) = some key.id

-- `ca_cert_.reset(cert); ca_key_.reset(key);`
unfoldable pub reset_ca : X509 → Key → CertStore → Action CertStore
reset_ca cert key store = do
  free_some (cert_id store.ca_cert)
  free_some (key_id store.ca_key)
  pure (record store { ca_cert = some cert; ca_key = some key })
