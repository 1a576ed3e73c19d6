-- ===== src/Cert/Files/Saved.antt =====
-- What `save_ca` does to the files and to the references.
use webcm.Common.{
  ℕ, ◌≡◌, inl, inr, refl, sym, ◌∙◌, ap, List, Bool, true, false, if◌then◌else◌, Option, none, some,
  some-injective, arith,
}
use webcm.Cert.Heap.{
  Call, bio_new_file, pem_write_x509, pem_write_private_key, make_directory, errno_eexist, Env,
  Heap,
}
use webcm.Cert.Rules.{
  Runs, Runs-pure, Runs-bind, Runs-mono, Runs-if, Runs-option, impossible, Owns, Owns-same,
  ask-Runs, free-Runs, Succeeds, create-Runs, try-Runs,
}
use webcm.Cert.Objects.{X509, Key, CertStore}
use webcm.Cert.Paths.{
  FilePath, parent_dir, ca_dir, ca_cert_path, ca_key_path, Disk, stat, put_file, content, exists,
  make_dir, writable,
}
use webcm.Cert.Disk.{
  Pem, PemLaws, ensure_parent, ensure_dir, open_bio, write_pem, save_key, save_cert, save_ca,
}
use webcm.Cert.Files.{OnDisk}
use webcm.Cert.Files.Left.{left-Runs}
use webcm.Cert.Files.Plain.{
  IsFree, IsPlain, Flushes, stat-IsFree, writable-IsFree, put_file-IsPlain, make_parent-IsPlain,
  make_ca_dir-IsPlain, close_file-Runs,
}

-- The files of the CA hold what was written for this certificate and this key.
abbrev pub IsSaved : Pem → X509 → Key → Disk → Type 0
IsSaved pem cert key disk =
    (content (stat ca_cert_path disk) ≡ some (pem.write_cert cert.content))
    × (content (stat ca_key_path disk) ≡ some (pem.write_key key.secret))

pub IsSaved-OnDisk :
    (pem : Pem) (cert : X509) (key : Key) (disk : Disk)
    → PemLaws pem
    → IsSaved pem cert key disk
    → OnDisk pem disk cert.content key.secret
IsSaved-OnDisk pem cert key disk laws saved = record {
  cert_pem = pem.write_cert cert.content;
  key_pem = pem.write_key key.secret;
  cert_file = saved.0;
  key_file = saved.1;
  cert_read = laws.read-write_cert cert.content;
  key_read = laws.read-write_key key.secret;
}

module _ (env : Env) (f : ℕ → ℕ) where
  -- A step from a disk that succeeds, or says that it has not, with this disk. On a plain disk it fails
  -- only if a call does, and what it has written is there if nothing is lost when a file is closed.
  abbrev Writes : Disk → (Disk → Type 0) → Bool × Disk → Heap → Type 0
  Writes disk P (b, d) h =
      Owns f h
      × (IsPlain disk → IsPlain d × (Flushes env → b ≡ true → P d) × (Succeeds env → b ≡ true))

  ensure_parent-Runs :
      {h : Heap} (disk : Disk)
      → Owns f h
      → Runs (λ d h'. Owns f h' × (IsPlain disk → IsPlain d)) (ensure_parent env disk) h
  unfolding ensure_parent
  ensure_parent-Runs {h} disk v =
      Runs-if (exists parent_dir disk) (λ e. Runs-pure disk h (v, λ plain. plain))
        (λ e. Runs-mono (try-Runs env make_directory (make_dir parent_dir) disk v) (λ d h' w. (
          w.0,
          λ plain. elim w.1 [ inl e ↦ rw e plain | inr e ↦ rw e (make_parent-IsPlain disk plain) ],
        )))

  ensure_dir-Runs :
      {h : Heap} (disk : Disk)
      → Owns f h
      → Runs (Writes disk (λ d. Unit {0})) (ensure_dir env disk) h
  unfolding ensure_dir
  ensure_dir-Runs {h} disk v =
      Runs-if (exists ca_dir disk)
        (λ e. Runs-pure (true, disk) h (v, λ plain. (plain, (λ all e. tt), λ all. refl)))
        (λ e. Runs-bind (ensure_parent-Runs disk v) λ d h1 w.
          Runs-bind (ask-Runs env make_directory w.0) λ made h2 x.
            Runs-if made
              (λ e.
                Runs-pure (true, make_dir ca_dir d) h2
                  (x.0, λ plain. (make_ca_dir-IsPlain d (w.1 plain), (λ all e. tt), λ all. refl)))
              (λ e. Runs-bind (ask-Runs env errno_eexist x.0) λ raced h3 y.
                Runs-pure (raced, d) h3
                  (
                    y.0,
                    λ plain. (w.1 plain, (λ all e. tt), λ all. sym y.1 ∙ all errno_eexist h2.asked),
                  )))

  module _ (call : Call) (path : FilePath) (bytes : List ℕ) (disk : Disk)
      (free_there : IsPlain disk → IsFree (disk.nodes path)) where
    open_bio-Runs :
        {h : Heap} (o : Option FilePath)
        → (IsPlain disk → o ≡ some path)
        → Owns f h
        → Runs (Writes disk (λ d. d ≡ put_file path bytes disk)) (open_bio env call bytes disk o) h
    open_bio-Runs {h} none e v = Runs-pure (false, disk) h (v, λ plain. absurd (cc (e plain)))
    open_bio-Runs {h} (some place) e v =
        Runs-option _ (create-Runs env bio_new_file v)
          (λ h1 w.
            Runs-pure (false, disk) h1
              (
                Owns-same w.0 (λ k. omega arith),
                λ plain. (
                  plain,
                  (λ all e. absurd (cc e)),
                  λ all. impossible (all bio_new_file h.asked) w.1,
                ),
              ))
          λ bio h1 w. Runs-bind (ask-Runs env call w.0) λ written h2 x.
            Runs-bind (left-Runs env x.0) λ partial h3 y.
              Runs-bind (free-Runs {g = f} bio y (λ k. omega arith)) λ u h4 z.
                Runs-bind (close_file-Runs env place (if written then bytes else partial) disk z)
                  λ d h5 t.
                    Runs-pure (written, d) h5
                      (
                        t.0,
                        λ plain. (
                          rw t.2 (put_file-IsPlain place t.1 disk plain),
                          (λ all is_written.
                              t.2
                              ∙ ap (λ q. put_file q t.1 disk) (some-injective place path (e plain))
                              ∙ ap (λ c. put_file path c disk)
                                  (t.3 all ∙ ap (λ c. if c then bytes else partial) is_written)),
                          λ all. sym x.1 ∙ all call h1.asked,
                        ),
                      )

    write_pem-Runs :
        {h : Heap}
        → Owns f h
        → Runs
            (Writes disk (λ d. d ≡ put_file path bytes disk))
            (write_pem env call path bytes disk)
            h
    unfolding write_pem
    write_pem-Runs v =
        open_bio-Runs (writable path disk) (λ plain. writable-IsFree path disk (free_there plain)) v

  module _ (pem : Pem) (cert : X509) (key : Key) where
    -- What is written to the file of the key is there with what the file of the certificate held.
    saved :
        (disk d : Disk)
        → IsPlain disk
        → IsPlain d
        → content (stat ca_cert_path disk) ≡ some (pem.write_cert cert.content)
        → d ≡ put_file ca_key_path (pem.write_key key.secret) disk
        → IsSaved pem cert key d
    saved disk d plain plain' e same = (
      ap content (
            stat-IsFree ca_cert_path d plain'.cert
            ∙ ap (λ t. t.nodes ca_cert_path) same
            ∙ sym (stat-IsFree ca_cert_path disk plain.cert))
          ∙ e,
      ap content (stat-IsFree ca_key_path d plain'.key ∙ ap (λ t. t.nodes ca_key_path) same),
    )

    save_key-Runs :
        {h : Heap} (start : Disk) (b : Bool) (disk : Disk)
        → Writes start
            (λ d. content (stat ca_cert_path d) ≡ some (pem.write_cert cert.content))
            (b, disk)
            h
        → Runs (Writes start (IsSaved pem cert key)) (save_key env pem key (b, disk)) h
    save_key-Runs {h} start false disk v =
        Runs-pure (false, disk) h
          (v.0, λ plain. let w = v.1 plain in (w.0, (λ all e. absurd (cc e)), w.2))
    save_key-Runs start true disk v =
        Runs-mono
          (write_pem-Runs pem_write_private_key ca_key_path (pem.write_key key.secret) disk
            (λ plain. plain.key) v.0)
          (λ r h w. (
            w.0,
            λ plain.
                let x = v.1 plain in
                let y = w.1 x.0 in
                (y.0, (λ all e. saved disk r.1 x.0 y.0 (x.1 all refl) (y.1 all e)), y.2),
          ))

    save_cert-Runs :
        {h : Heap} (start : Disk) (b : Bool) (disk : Disk)
        → Writes start (λ d. Unit {0}) (b, disk) h
        → Runs (Writes start (IsSaved pem cert key)) (save_cert env pem cert key (b, disk)) h
    save_cert-Runs {h} start false disk v =
        Runs-pure (false, disk) h
          (v.0, λ plain. let w = v.1 plain in (w.0, (λ all e. absurd (cc e)), w.2))
    save_cert-Runs start true disk v =
        Runs-bind
          (write_pem-Runs pem_write_x509 ca_cert_path (pem.write_cert cert.content) disk
            (λ plain. plain.cert) v.0)
          λ r h1 w. save_key-Runs start r.0 r.1 (
            w.0,
            λ plain.
                let y = w.1 (v.1 plain).0 in
                (
                  y.0,
                  (λ all e. ap content (
                      stat-IsFree ca_cert_path r.1 y.0.cert
                      ∙ ap (λ d. d.nodes ca_cert_path) (y.1 all e))),
                  y.2,
                ),
          )

    pub save_ca-Runs :
        {h : Heap} (disk : Disk) (s : CertStore)
        → Owns f h
        → Runs
            (λ r h'.
              Owns f h'
              × (IsPlain disk
                  → IsPlain r.1
                    × (Flushes env → r.0 ≡ true → IsSaved pem cert key r.1)
                    × (Succeeds env → r.0 ≡ true)))
            (save_ca env pem disk (record s { ca_cert = some cert; ca_key = some key }))
            h
    unfolding save_ca
    save_ca-Runs disk s v =
        Runs-bind (ensure_dir-Runs disk v) λ r h1 w. save_cert-Runs disk r.0 r.1 w
