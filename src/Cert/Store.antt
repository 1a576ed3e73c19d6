-- ===== src/Cert/Store.antt =====
-- `ensure_ca` and `issue_for_host` of https-proxy/cert_store.cpp. `mutex_` is not recursive: to lock it
-- again waits forever.
use webcm.Common.{
  ℕ, Bool, true, false, ◌==◌, ◌&&◌, if◌then◌else◌, Option, none, some, List, [], ◌∷◌,
}
use webcm.Cert.Heap.{
  pkey_up_ref, x509_dup, Env, Action, pure, ◌>>=◌, ◌>>◌, wait_forever, retain, free, free_some, ask,
  create,
}
use webcm.Cert.Objects.{X509, Key, CertPair, no_pair, CertStore, cert_id, key_id}
use webcm.Cert.Create.{create_ca, create_cert_for_host}
use webcm.Cert.Paths.{Disk}
use webcm.Cert.Disk.{Pem, load_ca, save_ca}
use webcm.Cert.Trust.{install_ca_to_trust_store}

abbrev pub text_eq : List ℕ → List ℕ → Bool
text_eq [] [] = true
text_eq [] (d ∷ ds) = false
text_eq (c ∷ cs) [] = false
text_eq (c ∷ cs) (d ∷ ds) = (c == d) && text_eq cs ds

-- `cert_cache_.find(hostname)`
unfoldable pub find_cert : List ℕ → List (List ℕ × CertPair) → Option CertPair
find_cert hostname [] = none
find_cert hostname ((name, pair) ∷ cache) =
    if text_eq name hostname then some pair else find_cert hostname cache

-- `cert_cache_[hostname] = pair`: the pair that was there.
unfoldable pub put_cert : List ℕ → CertPair → List (List ℕ × CertPair) → List (List ℕ × CertPair)
put_cert hostname pair [] = (hostname, pair) ∷ []
put_cert hostname pair ((name, old) ∷ cache) =
    if text_eq name hostname
    then (name, pair) ∷ cache
    else (name, old) ∷ put_cert hostname pair cache

-- The destructor of a pair.
abbrev pub release : Option CertPair → Action (Unit {0})
release none = pure tt
release (some pair) = do free_some (cert_id pair.cert); free_some (key_id pair.key)

-- The lock that is held to the end of the function.
unfoldable pub lock : CertStore → Action CertStore
lock store = if store.locked then wait_forever else pure (record store { locked = true })

abbrev pub unlock : CertStore → CertStore
unlock store = record store { locked = false }

module _ (env : Env) (pem : Pem) where
  -- The CA is in the store: it is installed, and the lock released.
  abbrev pub ca_ready : Disk → CertStore → Action (Bool × CertStore × Disk)
  ca_ready disk store = do
    disk' ← install_ca_to_trust_store env disk (record store { ca_loaded = true })
    pure (true, unlock (record store { ca_loaded = true }), disk')

  abbrev pub ca_saved : CertStore → Bool × Disk → Action (Bool × CertStore × Disk)
  ca_saved store (true, disk) = ca_ready disk store
  ca_saved store (false, disk) = pure (false, unlock store, disk)

  abbrev pub ca_created : Disk → Bool × CertStore → Action (Bool × CertStore × Disk)
  ca_created disk (true, store) = save_ca env pem disk store >>= ca_saved store
  ca_created disk (false, store) = pure (false, unlock store, disk)

  abbrev pub ca_searched : Disk → Bool × CertStore → Action (Bool × CertStore × Disk)
  ca_searched disk (true, store) = ca_ready disk store
  ca_searched disk (false, store) = create_ca env disk.now store >>= ca_created disk

  abbrev pub ensure_locked : Disk → CertStore → Action (Bool × CertStore × Disk)
  ensure_locked disk store =
      if store.ca_loaded
      then pure (true, unlock store, disk)
      else (load_ca env pem disk store >>= ca_searched disk)

  unfoldable pub ensure_ca : Disk → CertStore → Action (Bool × CertStore × Disk)
  ensure_ca disk store = lock store >>= ensure_locked disk

  -- `cert_dup && key && EVP_PKEY_up_ref(key)`: a second pair, or none and the copy released.
  abbrev pub share_key : X509 → Option Key → Action (Option CertPair)
  share_key cert none = do free cert.id; pure none
  share_key cert (some key) = do
    shared ← ask env pkey_up_ref
    if shared
        then (do retain key.id; pure (some (record { cert = some cert; key = some key })))
        else (do free cert.id; pure none)

  abbrev pub dup_cert : X509 → Option Key → Option ℕ → Action (Option CertPair)
  dup_cert cert key none = pure none
  dup_cert cert key (some id) = share_key (record { id = id; content = cert.content }) key

  -- A copy of a null pointer is null.
  unfoldable pub dup_pair : CertPair → Action (Option CertPair)
  dup_pair pair = elim pair.cert [
    | none ↦ pure none
    | some cert ↦ create env x509_dup >>= dup_cert cert pair.key
  ]

  -- The pair is put into the cache, if it is one and can be copied.
  abbrev pub cache_pair : List ℕ → CertStore → Option CertPair → Action CertStore
  cache_pair hostname store none = pure store
  cache_pair hostname store (some pair) = do
    release (find_cert hostname store.cert_cache)
    pure (record store { cert_cache = put_cert hostname pair store.cert_cache })

  abbrev pub is_whole : CertPair → Bool
  is_whole pair = elim pair.cert [
    | none ↦ false
    | some cert ↦ elim pair.key [ none ↦ false | some key ↦ true ]
  ]

  abbrev pub cache_created : List ℕ → CertStore → CertPair → Action CertStore
  cache_created hostname store pair =
      if is_whole pair then (dup_pair pair >>= cache_pair hostname store) else pure store

  -- What `issue_for_host` gives: the pair, the store, and the disk.
  abbrev pub issue_new : List ℕ → Bool × CertStore × Disk → Action (CertPair × CertStore × Disk)
  issue_new hostname (false, store, disk) = pure (no_pair, unlock store, disk)
  issue_new hostname (true, store, disk) = do
    pair ← create_cert_for_host env disk.now hostname store
    store' ← cache_created hostname store pair
    pure (pair, unlock store', disk)

  -- `!ca_loaded_ && !ensure_ca()`, with the lock held.
  abbrev pub issue_uncached :
      List ℕ → Disk → CertStore → Option CertPair → Action (CertPair × CertStore × Disk)
  issue_uncached hostname disk store (some pair) = pure (pair, unlock store, disk)
  issue_uncached hostname disk store none =
      (if store.ca_loaded then pure (true, store, disk) else ensure_ca disk store)
      >>= issue_new hostname

  abbrev pub issue_found :
      List ℕ → Disk → CertStore → Option CertPair → Action (CertPair × CertStore × Disk)
  issue_found hostname disk store none = issue_uncached hostname disk store none
  issue_found hostname disk store (some pair) = dup_pair pair >>= issue_uncached hostname disk store

  abbrev pub issue_locked : List ℕ → Disk → CertStore → Action (CertPair × CertStore × Disk)
  issue_locked hostname disk store =
      issue_found hostname disk store (find_cert hostname store.cert_cache)

  unfoldable pub issue_for_host : List ℕ → Disk → CertStore → Action (CertPair × CertStore × Disk)
  issue_for_host hostname disk store = lock store >>= issue_locked hostname disk
