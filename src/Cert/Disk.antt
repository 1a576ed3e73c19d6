-- ===== src/Cert/Disk.antt =====
-- The files that https-proxy/cert_store.cpp reads and writes, and `save_ca`, `load_ca` and
-- `install_ca_to_trust_store`.
use webcm.Common.{ℕ, Bool, true, false, if◌then◌else◌, Option, none, some, List, ◌≡◌}
use webcm.Cert.Heap.{
  Call, bio_new_mem_buf, bio_new_file, pem_read_x509, pem_read_private_key, pem_write_x509,
  pem_write_private_key, open_file, make_directory, errno_eexist, file_flush, Env, Action, pure,
  ◌>>=◌, ◌>>◌, free, free_some, ask, create, try, left,
}
use webcm.Cert.Paths.{
  FilePath, parent_dir, ca_dir, ca_cert_path, ca_key_path, Disk, stat, content, exists, writable,
  put_file, make_dir,
}
use webcm.Cert.Objects.{Certificate, X509, Key, CertStore, key_id, reset_ca}

-- How OpenSSL writes certificates and keys as PEM, and reads them, with what the code relies on.
pub record Pem : Type 0 where
  pub write_cert : Certificate → List ℕ
  pub read_cert : List ℕ → Option Certificate
  pub write_key : ℕ → List ℕ
  pub read_key : List ℕ → Option ℕ

pub record PemLaws (pem : Pem) : Type 0 where
  pub read-write_cert : (c : Certificate) → pem.read_cert (pem.write_cert c) ≡ some c
  pub read-write_key : (secret : ℕ) → pem.read_key (pem.write_key secret) ≡ some secret

module _ (env : Env) where
  -- An `std::ifstream`: what the file holds, if it is open.
  unfoldable pub open_read : FilePath → Disk → Action (Option (List ℕ))
  open_read path disk = do
    opened ← ask env open_file
    pure (if opened then content (stat path disk) else none)

  module _ (pem : Pem) where
    abbrev pub read_x509 : Option Certificate → Action (Option X509)
    read_x509 none = pure none
    read_x509 (some c) = do
      id ← create env pem_read_x509
      pure (elim id [ none ↦ none | some id ↦ some (record { id = id; content = c }) ])

    abbrev pub read_private_key : Option ℕ → Action (Option Key)
    read_private_key none = pure none
    read_private_key (some secret) = do
      id ← create env pem_read_private_key
      pure (elim id [ none ↦ none | some id ↦ some (record { id = id; secret = secret }) ])

    -- Both are put into the store, or neither.
    abbrev pub load_pair : CertStore → Option X509 → Option Key → Action (Bool × CertStore)
    load_pair store (some cert) (some key) = do
      store' ← reset_ca cert key store
      pure (true, store')
    load_pair store none key = do free_some (key_id key); pure (false, store)
    load_pair store (some cert) none = do free cert.id; pure (false, store)

    abbrev pub load_bios :
        CertStore → List ℕ → List ℕ → Option ℕ → Option ℕ → Action (Bool × CertStore)
    load_bios store cert_pem key_pem (some cert_bio) (some key_bio) = do
      cert ← read_x509 (pem.read_cert cert_pem)
      key ← read_private_key (pem.read_key key_pem)
      free cert_bio
      free key_bio
      load_pair store cert key
    load_bios store cert_pem key_pem none key_bio = do free_some key_bio; pure (false, store)
    load_bios store cert_pem key_pem (some cert_bio) none = do free cert_bio; pure (false, store)

    abbrev pub load_files :
        CertStore → Option (List ℕ) → Option (List ℕ) → Action (Bool × CertStore)
    load_files store (some cert_pem) (some key_pem) = do
      cert_bio ← create env bio_new_mem_buf
      key_bio ← create env bio_new_mem_buf
      load_bios store cert_pem key_pem cert_bio key_bio
    load_files store none key_file = pure (false, store)
    load_files store (some cert_pem) none = pure (false, store)

    unfoldable pub load_ca : Disk → CertStore → Action (Bool × CertStore)
    load_ca disk store = do
      cert_file ← open_read ca_cert_path disk
      key_file ← open_read ca_key_path disk
      load_files store cert_file key_file

  unfoldable pub ensure_parent : Disk → Action Disk
  ensure_parent disk =
      if exists parent_dir disk
      then pure disk
      else try env make_directory (make_dir parent_dir) disk

  -- `stat` and the `mkdir`s: the second must succeed, or find that something is there.
  unfoldable pub ensure_dir : Disk → Action (Bool × Disk)
  ensure_dir disk = if exists ca_dir disk then pure (true, disk) else (do
    disk' ← ensure_parent disk
    made ← ask env make_directory
    if made
        then pure (true, make_dir ca_dir disk')
        else (do raced ← ask env errno_eexist; pure (raced, disk')))

  -- What is written to an open file is there when it is closed, or what a failure leaves. The
  -- program does not see which.
  unfoldable pub close_file : FilePath → List ℕ → Disk → Action Disk
  close_file path bytes disk = do
    flushed ← ask env file_flush
    partial ← left env
    pure (put_file path (if flushed then bytes else partial) disk)

  -- A file is opened for writing, which empties it, written to a buffer, and closed.
  abbrev pub write_bio : Call → FilePath → List ℕ → Disk → Option ℕ → Action (Bool × Disk)
  write_bio call path bytes disk none = pure (false, disk)
  write_bio call path bytes disk (some bio) = do
    written ← ask env call
    partial ← left env
    free bio
    disk' ← close_file path (if written then bytes else partial) disk
    pure (written, disk')

  abbrev pub open_bio : Call → List ℕ → Disk → Option FilePath → Action (Bool × Disk)
  open_bio call bytes disk none = pure (false, disk)
  open_bio call bytes disk (some path) = create env bio_new_file >>= write_bio call path bytes disk

  unfoldable pub write_pem : Call → FilePath → List ℕ → Disk → Action (Bool × Disk)
  write_pem call path bytes disk = open_bio call bytes disk (writable path disk)

  module _ (pem : Pem) where
    abbrev pub save_key : Key → Bool × Disk → Action (Bool × Disk)
    save_key key (false, disk) = pure (false, disk)
    save_key key (true, disk) =
        write_pem pem_write_private_key ca_key_path (pem.write_key key.secret) disk

    abbrev pub save_cert : X509 → Key → Bool × Disk → Action (Bool × Disk)
    save_cert cert key (false, disk) = pure (false, disk)
    save_cert cert key (true, disk) =
        write_pem pem_write_x509 ca_cert_path (pem.write_cert cert.content) disk >>= save_key key

    abbrev pub save_pair : Disk → Option X509 → Option Key → Action (Bool × Disk)
    save_pair disk (some cert) (some key) = ensure_dir disk >>= save_cert cert key
    save_pair disk none key = pure (false, disk)
    save_pair disk (some cert) none = pure (false, disk)

    unfoldable pub save_ca : Disk → CertStore → Action (Bool × Disk)
    save_ca disk store = save_pair disk store.ca_cert store.ca_key
