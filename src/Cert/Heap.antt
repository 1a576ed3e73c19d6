-- ===== src/Cert/Heap.antt =====
-- The objects of OpenSSL as https-proxy/cert_store.cpp handles them: they are counted references, and
-- a call that can fail asks the environment. OpenSSL is not part of the repository; how its calls come
-- out, and what it makes up at random, are parameters.
use webcm.Common.{
  ℕ, ◌+◌, ◌-◌, Bool, true, false, ◌==◌, if◌then◌else◌, Option, none, some, List, [], ◌∷◌, Outcome,
  ok, fault, stuck,
}

-- The calls that can fail, by the name of the function, or of what they are told to do.
pub data Call : Type 0 where
  pkey_new pkey_ctx_new_id pkey_keygen_init pkey_set_curve pkey_keygen pkey_up_ref : Call
  x509_new x509_dup x509_sign x509_set_version x509_set_serial x509_set_not_before : Call
  x509_set_not_after x509_set_subject_name x509_set_issuer_name x509_set_pubkey x509_add_ext : Call
  x509_name_new x509_name_add_entry x509v3_ext_conf_nid x509v3_ext_i2d rand_bytes bn_bin2bn : Call
  asn1_integer_new bn_to_asn1_integer sk_general_name_new sk_general_name_push : Call
  general_name_new asn1_string_new asn1_string_set bio_new_mem_buf bio_new_file : Call
  pem_read_x509 pem_read_private_key pem_write_x509 pem_write_private_key : Call
  open_file make_directory errno_eexist unlink symlink file_flush ssl_use_certificate
        ssl_use_private_key :
      Call

-- How the n-th call comes out; the secret that the n-th call generates, and the serial number; and what
-- a write leaves in a file if it fails.
pub record Env : Type 0 where
  pub answers : Call → ℕ → Bool
  pub generated : ℕ → ℕ
  pub random_serial : ℕ → ℕ
  pub left_over : ℕ → List ℕ

-- `refs` counts the references to an object, 0 for one that does not live; `next` names the next one,
-- and `asked` counts the calls so far.
pub record Heap : Type 0 where
  pub asked : ℕ
  pub next : ℕ
  pub refs : ℕ → ℕ

abbrev pub Action {ℓ} : Type ℓ → Type ℓ
Action A = Heap → Outcome (A × Heap)

abbrev continue : {A B : Type 0} → Outcome (A × Heap) → (A → Action B) → Outcome (B × Heap)
continue (ok (a, h)) f = f a h
continue fault f = fault
continue stuck f = stuck

unfoldable pub pure : {A : Type 0} → A → Action A
pure a h = ok (a, h)

infixl 5 ◌>>=◌ ◌>>◌
unfoldable pub ◌>>=◌ : {A B : Type 0} → Action A → (A → Action B) → Action B
◌>>=◌ m f h = continue (m h) f

abbrev pub ◌>>◌ : {B : Type 0} → Action (Unit {0}) → Action B → Action B
m >> k = m >>= λ _. k

-- A lock that is held, or code that waits for itself.
unfoldable pub wait_forever : {A : Type 0} → Action A
wait_forever h = stuck

abbrev pub occurs : ℕ → ℕ → ℕ
occurs id k = if id == k then 1 else 0

-- One reference more; a fresh object starts with one.
unfoldable pub retain : ℕ → Action (Unit {0})
retain id h = ok (tt, record h { refs = λ k. h.refs k + occurs id k })

unfoldable pub fresh : Action ℕ
fresh h = ok (h.next, record h { next = h.next + 1; refs = λ k. h.refs k + occurs h.next k })

-- `X509_free` and its like. To release what does not live is a fault.
unfoldable pub free : ℕ → Action (Unit {0})
free id h =
    if h.refs id == 0 then fault else ok (tt, record h { refs = λ k. h.refs k - occurs id k })

-- A null pointer is let be.
unfoldable pub free_some : Option ℕ → Action (Unit {0})
unfolding free pure
free_some none = pure tt
free_some (some id) = free id

module _ (env : Env) where
  unfoldable pub ask : Call → Action Bool
  ask call h = ok (env.answers call h.asked, record h { asked = h.asked + 1 })

  -- What the last call generated, or drew at random.
  unfoldable pub secret : Action ℕ
  secret h = ok (env.generated h.asked, h)

  unfoldable pub serial : Action ℕ
  serial h = ok (env.random_serial h.asked, h)

  unfoldable pub left : Action (List ℕ)
  left h = ok (env.left_over h.asked, h)

  -- An object is made, or a null pointer returned.
  unfoldable pub create : Call → Action (Option ℕ)
  unfolding ask fresh pure ◌>>=◌
  create call = do made ← ask call; if made then (do id ← fresh; pure (some id)) else pure none

  -- A call whose result is ignored: it changes the value or does not.
  unfoldable pub try : {A : Type 0} → Call → (A → A) → A → Action A
  unfolding ask pure ◌>>=◌
  try call f a = do done ← ask call; pure (if done then f a else a)

  -- `||` over calls: the first failure ends the chain.
  unfoldable pub all_succeed : List Call → Action Bool
  unfolding ask pure ◌>>=◌
  all_succeed [] = pure true
  all_succeed (call ∷ calls) = do done ← ask call; if done then all_succeed calls else pure false
