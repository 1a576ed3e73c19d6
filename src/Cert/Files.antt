-- ===== src/Cert/Files.antt =====
-- What `load_ca`, `save_ca` and `install_ca_to_trust_store` do to the files and to the references.
pub mod Left
pub mod Plain
pub mod Loaded
pub mod Saved
pub mod Fresh
pub mod Copied
pub mod Installed
use webcm.Common.{
  ℕ, ◌+◌, ◌≡◌, ◌⊎◌, inl, inr, refl, sym, ◌∙◌, ap, List, Bool, true, false, if◌then◌else◌,
  Bool-cases, Option, none, some, some-injective, arith,
}
use webcm.Cert.Heap.{
  Call, bio_new_mem_buf, bio_new_file, pem_read_x509, pem_read_private_key, pem_write_x509,
  pem_write_private_key, open_file, make_directory, errno_eexist, unlink, symlink, Env, Heap,
  Action, pure, ◌>>=◌, ◌>>◌, occurs, free, free_some, ask, create, try, left,
}
use webcm.Cert.Rules.{
  Runs, Runs-pure, Runs-bind, Runs-mono, Runs-if, Runs-option, Runs-bool, impossible, Owns,
  Owns-same, ask-Runs, free-Runs, free_some-Runs, occurs_some, is_some, Succeeds, create-Runs,
  try-Runs,
}
use webcm.Cert.Objects.{Certificate, X509, Key, CertStore, cert_id, key_id, reset_ca}
use webcm.Cert.Authority.{held, reset_ca-Runs}
use webcm.Cert.Paths.{
  FilePath, parent_dir, ca_dir, ca_cert_path, ca_key_path, trust_store_path, cert_pem_path,
  certs_dir, cert_link, Node, Disk, set_node, stat, content, exists, make_dir,
}
use webcm.Cert.Disk.{
  Pem, PemLaws, open_read, read_x509, read_private_key, load_pair, load_bios, load_files, load_ca,
  ensure_parent, ensure_dir, write_bio, write_pem, save_key, save_cert, save_ca,
}

-- The files of the CA hold this certificate and this key.
pub record OnDisk (pem : Pem) (disk : Disk) (cert : Certificate) (secret : ℕ) : Type 0 where
  pub cert_pem : List ℕ
  pub key_pem : List ℕ
  pub cert_file : content (stat ca_cert_path disk) ≡ some cert_pem
  pub key_file : content (stat ca_key_path disk) ≡ some key_pem
  pub cert_read : pem.read_cert cert_pem ≡ some cert
  pub key_read : pem.read_key key_pem ≡ some secret

-- What `load_ca` leaves: the store as it was, or with the certificate and the key of the disk.
abbrev pub IsLoaded : Pem → Disk → CertStore → Bool → CertStore → Type 0
IsLoaded pem disk s false s' = s' ≡ s
IsLoaded pem disk s true s' =
    (cert : X509) × (key : Key) × (s' ≡ record s { ca_cert = some cert; ca_key = some key })
    × OnDisk pem disk cert.content key.secret

module _ (env : Env) where
  pub open_read-Runs :
      {f : ℕ → ℕ} {h : Heap} (path : FilePath) (disk : Disk)
      → Owns f h
      → Runs
          (λ o h'.
            Owns f h'
            × ((bytes : List ℕ) → o ≡ some bytes → content (stat path disk) ≡ some bytes)
            × (Succeeds env → o ≡ content (stat path disk)))
          (open_read env path disk)
          h
  unfolding open_read
  open_read-Runs {h = h} path disk v =
      Runs-bool _ (ask-Runs env open_file v)
        (λ h1 w.
          Runs-pure none h1
            (w.0, (λ bytes e. absurd (cc)), λ all. impossible (all open_file h.asked) w.1))
        λ h1 w. Runs-pure _ h1 (w.0, (λ bytes e. e), λ all. refl)

  module _ (pem : Pem) (f : ℕ → ℕ) where
    pub read_x509-Runs :
        {h : Heap} (o : Option Certificate)
        → Owns f h
        → Runs
            (λ r h'.
              Owns (λ k. occurs_some (cert_id r) k + f k) h'
              × ((cert : X509) → r ≡ some cert → o ≡ some cert.content)
              × (Succeeds env → is_some o ≡ true → is_some r ≡ true))
            (read_x509 env pem o)
            h
    read_x509-Runs none v =
        Runs-pure none _ (Owns-same v (λ k. omega arith), (λ cert e. absurd (cc)), λ all e. e)
    read_x509-Runs {h} (some c) v =
        Runs-option _ (create-Runs env pem_read_x509 v)
          (λ h1 w.
            Runs-pure none h1
              (w.0, (λ cert e. absurd (cc)), λ all. impossible (all pem_read_x509 h.asked) w.1))
          λ id h1 w. Runs-pure _ h1 (w.0, (λ cert e. ap some (cc)), λ all e. refl)

    pub read_private_key-Runs :
        {h : Heap} (o : Option ℕ)
        → Owns f h
        → Runs
            (λ r h'.
              Owns (λ k. occurs_some (key_id r) k + f k) h'
              × ((key : Key) → r ≡ some key → o ≡ some key.secret)
              × (Succeeds env → is_some o ≡ true → is_some r ≡ true))
            (read_private_key env pem o)
            h
    read_private_key-Runs none v =
        Runs-pure none _ (Owns-same v (λ k. omega arith), (λ key e. absurd (cc)), λ all e. e)
    read_private_key-Runs {h} (some secret) v =
        Runs-option _ (create-Runs env pem_read_private_key v)
          (λ h1 w.
            Runs-pure none h1 (
              w.0,
              (λ key e. absurd (cc)),
              λ all. impossible (all pem_read_private_key h.asked) w.1,
            ))
          λ id h1 w. Runs-pure _ h1 (w.0, (λ key e. ap some (cc)), λ all e. refl)

-- After `load_ca`: who owns what, what is loaded, and that it is if the files can be read and no call fails.
abbrev pub Loads : Env → Pem → Disk → (ℕ → ℕ) → CertStore → Bool × CertStore → Heap → Type 0
Loads env pem disk f s (b, s') h =
    Owns (λ k. held s' k + f k) h
    × IsLoaded pem disk s b s'
    × (Succeeds env → (c : Certificate) (secret : ℕ) → OnDisk pem disk c secret → b ≡ true)

module _ (env : Env) (pem : Pem) (disk : Disk) (f : ℕ → ℕ) (s : CertStore) where
  -- Nothing is loaded: the reason why.
  abbrev pub Never : Type 0
  Never = Succeeds env → (c : Certificate) (secret : ℕ) → OnDisk pem disk c secret → ⊥

  pub not_loaded :
      {h : Heap}
      → Owns (λ k. held s k + f k) h
      → Never
      → Runs (Loads env pem disk f s) (pure (false, s)) h
  not_loaded {h} v never =
      Runs-pure (false, s) h (v, refl, λ all c secret on. absurd (never all c secret on))

  abbrev pub base : ℕ → ℕ
  base k = held s k + f k

  module _ (cert_pem key_pem : List ℕ)
      (cert_file : content (stat ca_cert_path disk) ≡ some cert_pem)
      (key_file : content (stat ca_key_path disk) ≡ some key_pem) where
    read_cert_some :
        (c : Certificate) (secret : ℕ)
        → OnDisk pem disk c secret
        → is_some (pem.read_cert cert_pem) ≡ true
    read_cert_some c secret on =
        let same : on.cert_pem ≡ cert_pem =
          some-injective on.cert_pem cert_pem (sym on.cert_file ∙ cert_file) in
        ap (λ o. is_some o) (ap pem.read_cert (sym same) ∙ on.cert_read)

    read_key_some :
        (c : Certificate) (secret : ℕ)
        → OnDisk pem disk c secret
        → is_some (pem.read_key key_pem) ≡ true
    read_key_some c secret on =
        let same : on.key_pem ≡ key_pem =
          some-injective on.key_pem key_pem (sym on.key_file ∙ key_file) in
        ap (λ o. is_some o) (ap pem.read_key (sym same) ∙ on.key_read)

    pub load_pair-Runs :
        (o : Option X509) (p : Option Key) (h : Heap)
        → Owns (λ k. occurs_some (cert_id o) k + (occurs_some (key_id p) k + base k)) h
        → ((cert : X509) → o ≡ some cert → pem.read_cert cert_pem ≡ some cert.content)
        → ((key : Key) → p ≡ some key → pem.read_key key_pem ≡ some key.secret)
        → (Succeeds env → is_some (pem.read_cert cert_pem) ≡ true → is_some o ≡ true)
        → (Succeeds env → is_some (pem.read_key key_pem) ≡ true → is_some p ≡ true)
        → Runs (Loads env pem disk f s) (load_pair env pem s o p) h
    load_pair-Runs (some cert) (some key) h v e e' g g' =
        Runs-bind (reset_ca-Runs env 0 f s cert key v) λ s' h1 w.
          Runs-pure (true, s') h1
            (
              w.0,
              (
                cert,
                key,
                w.1,
                record {
                  cert_pem = cert_pem;
                  key_pem = key_pem;
                  cert_file = cert_file;
                  key_file = key_file;
                  cert_read = e cert refl;
                  key_read = e' key refl;
                },
              ),
              λ all c secret on. refl,
            )
    load_pair-Runs none p h v e e' g g' =
        Runs-bind (free_some-Runs {g = base} (key_id p) v (λ k. omega arith)) λ u h1 w.
          not_loaded w (λ all c secret on. impossible (g all (read_cert_some c secret on)) refl)
    load_pair-Runs (some cert) none h v e e' g g' =
        Runs-bind (free-Runs {g = base} cert.id v (λ k. omega arith)) λ u h1 w.
          not_loaded w (λ all c secret on. impossible (g' all (read_key_some c secret on)) refl)
