-- ===== src/Cert/Files/Copied.antt =====
-- The steps of `install_ca_to_trust_store`, on disks where no link and no directory is in the way.
use webcm.Common.{
  ℕ, ◌≡◌, ◌⊎◌, inl, inr, refl, sym, ◌∙◌, ap, List, [], false, Bool-cases, Option, none, some,
  some-injective,
}
use webcm.Cert.Heap.{open_file, file_flush, unlink, symlink, Env, Heap}
use webcm.Cert.Rules.{
  Runs, Runs-pure, Runs-bind, Runs-mono, Runs-if, Runs-bool, impossible, Owns, ask-Runs, Succeeds,
  try-Runs,
}
use webcm.Cert.Paths.{
  FilePath, ca_cert_path, ca_key_path, trust_store_path, cert_pem_path, certs_dir, cert_link, Node,
  link, Disk, path_eq, set_node, stat, content, is_there, exists, writable, put_file,
}
use webcm.Cert.Trust.{make_link, relink, open_write, copy_pem, read_again, copy_content, copy_trust}
use webcm.Cert.Files.Plain.{
  IsPlain, stat-IsFree, writable-IsFree, put_file-IsPlain, close_file-Runs,
}

-- The files of the CA are as they were.
abbrev pub IsKept : Disk → Disk → Type 0
IsKept disk disk' =
    (disk'.nodes ca_cert_path ≡ disk.nodes ca_cert_path)
    × (disk'.nodes ca_key_path ≡ disk.nodes ca_key_path)

-- Both copies hold this.
abbrev pub IsCopied : List ℕ → Disk → Type 0
IsCopied bytes disk =
    (content (disk.nodes trust_store_path) ≡ some bytes)
    × (content (disk.nodes cert_pem_path) ≡ some bytes)

-- Only the link may have changed.
abbrev IsRelinked : Disk → Disk → Type 0
IsRelinked disk disk' = (p : FilePath) → path_eq cert_link p ≡ false → disk'.nodes p ≡ disk.nodes p

set_node_other :
    (entry : Option Node) (disk : Disk) → IsRelinked disk (set_node cert_link entry disk)
set_node_other entry disk p e = rw e

make_link_other : (disk : Disk) → IsRelinked disk (make_link disk)
make_link_other disk p e = elim (Bool-cases (is_there (disk.nodes cert_link))) [
  | inl there ↦ rw there refl
  | inr gone ↦ rw gone (set_node_other (some (link disk.now trust_store_path)) disk p e)
]

IsRelinked-IsPlain : (disk d : Disk) → IsRelinked disk d → IsPlain disk → IsPlain d
IsRelinked-IsPlain disk d same plain = record {
  cert = rw (same ca_cert_path refl) plain.cert;
  key = rw (same ca_key_path refl) plain.key;
  trust = rw (same trust_store_path refl) plain.trust;
  cert_pem = rw (same cert_pem_path refl) plain.cert_pem;
}

module _ (env : Env) (f : ℕ → ℕ) where
  relink-Runs :
      {h : Heap} (disk : Disk)
      → Owns f h
      → Runs (λ d h'. Owns f h' × IsRelinked disk d) (relink env disk) h
  unfolding relink
  relink-Runs {h} disk v =
      Runs-if (exists certs_dir disk)
        (λ e. Runs-bind (try-Runs env unlink (set_node cert_link none) disk v) λ d h1 w.
          Runs-mono (try-Runs env symlink make_link d w.0) (λ d' h2 x. (
            x.0,
            λ p e.
                tried d d' (make_link d) (make_link_other d) x.1 p e
                ∙ tried disk d (set_node cert_link none disk) (set_node_other none disk) w.1 p e,
          )))
        (λ e. Runs-pure disk h (v, λ p e. refl))
    where
      tried : (a b c : Disk) → IsRelinked a c → ((b ≡ a) ⊎ (b ≡ c)) → IsRelinked a b
      tried a b c same (inl e) p n = ap (λ d. d.nodes p) e
      tried a b c same (inr e) p n = ap (λ d. d.nodes p) e ∙ same p n

  pub open_write-Runs :
      {h : Heap} (path : FilePath) (disk : Disk)
      → Owns f h
      → Runs
          (λ o h'.
            Owns f h'
            × ((place : FilePath) → o ≡ some place → writable path disk ≡ some place)
            × (Succeeds env → o ≡ writable path disk))
          (open_write env path disk)
          h
  unfolding open_write
  open_write-Runs {h} path disk v =
      Runs-bool _ (ask-Runs env open_file v)
        (λ h1 w.
          Runs-pure none h1
            (w.0, (λ place e. absurd (cc e)), λ all. impossible (all open_file h.asked) w.1))
        λ h1 w. Runs-pure _ h1 (w.0, (λ place e. e), λ all. refl)

  -- From a plain disk to a plain disk; the files of the CA are kept; and if no call fails, the copies hold this.
  abbrev pub Installs : Disk → (List ℕ → Type 0) → Disk → Heap → Type 0
  Installs disk P d h =
      Owns f h
      × (IsPlain disk
          → IsPlain d
            × IsKept disk d
            × (Succeeds env → (bytes : List ℕ) → P bytes → IsCopied bytes d))

  -- The copy in `cert.pem`, and the link.
  copy_pem-Runs :
      {h : Heap} (bytes : List ℕ) (disk : Disk) (o : Option FilePath)
      → Owns f h
      → (IsPlain disk → (place : FilePath) → o ≡ some place → place ≡ cert_pem_path)
      → (IsPlain disk → Succeeds env → o ≡ none → ⊥)
      → Runs
          (Installs disk (λ c. (bytes ≡ c) × (content (disk.nodes trust_store_path) ≡ some c)))
          (copy_pem env bytes disk o)
          h
  copy_pem-Runs bytes disk none v e g = Runs-mono (relink-Runs disk v) (λ d h w. (
    w.0,
    λ plain. (
      IsRelinked-IsPlain disk d w.1 plain,
      (w.1 ca_cert_path refl, w.1 ca_key_path refl),
      λ all. absurd (g plain all refl),
    ),
  ))
  copy_pem-Runs bytes disk (some place) v e g =
      Runs-bind (close_file-Runs env place bytes disk v) λ d h1 w.
        Runs-mono (relink-Runs d w.0) (λ d' h2 x. (
          x.0,
          λ plain.
              let there : d ≡ put_file cert_pem_path w.1 disk =
                w.2 ∙ ap (λ q. put_file q w.1 disk) (e plain place refl) in
              let plain' : IsPlain d = rw there (put_file-IsPlain cert_pem_path w.1 disk plain) in
              (
                IsRelinked-IsPlain d d' x.1 plain',
                (
                  x.1 ca_cert_path refl ∙ ap (λ t. t.nodes ca_cert_path) there,
                  x.1 ca_key_path refl ∙ ap (λ t. t.nodes ca_key_path) there,
                ),
                λ all c same. (
                  ap content (x.1 trust_store_path refl ∙ ap (λ t. t.nodes trust_store_path) there)
                      ∙ same.1,
                  ap content (x.1 cert_pem_path refl ∙ ap (λ t. t.nodes cert_pem_path) there)
                      ∙ ap some (w.3 (all file_flush) ∙ same.0),
                ),
              ),
        ))

  copy_content-Runs :
      {h : Heap} (bytes : List ℕ) (disk : Disk)
      → Owns f h
      → Runs
          (Installs disk (λ c. (bytes ≡ c) × (content (disk.nodes trust_store_path) ≡ some c)))
          (copy_content env bytes disk)
          h
  copy_content-Runs bytes disk v = Runs-bind (open_write-Runs cert_pem_path disk v) λ o h1 w.
      copy_pem-Runs bytes disk o w.0
        (λ plain place e.
          some-injective place cert_pem_path
            (sym (w.1 place e) ∙ writable-IsFree cert_pem_path disk plain.cert_pem))
        (λ plain all n. absurd (cc (w.2 all, n, writable-IsFree cert_pem_path disk plain.cert_pem)))

  -- The copy in the trust store.
  pub copy_trust-Runs :
      {h : Heap} (disk : Disk) (o : Option FilePath)
      → Owns f h
      → (IsPlain disk → (place : FilePath) → o ≡ some place → place ≡ trust_store_path)
      → (IsPlain disk → Succeeds env → o ≡ none → ⊥)
      → Runs
          (Installs disk (λ c. content (disk.nodes ca_cert_path) ≡ some c))
          (copy_trust env disk o)
          h
  copy_trust-Runs {h} disk none v e g =
      Runs-pure disk h (v, λ plain. (plain, (refl, refl), λ all. absurd (g plain all refl)))
  copy_trust-Runs {h} disk (some place) v e g =
      let emptied = put_file place [] disk in
      let bytes = read_again (content (stat ca_cert_path emptied)) in
      Runs-bind (close_file-Runs env place bytes emptied v) λ d h1 w.
        Runs-mono (copy_content-Runs bytes d w.0) (λ d' h2 x. (
          x.0,
          λ plain.
              let here = e plain place refl in
              let there : d ≡ put_file trust_store_path w.1 (put_file trust_store_path [] disk) =
                w.2 ∙ ap (λ q. put_file q w.1 (put_file q [] disk)) here in
              let plain_emptied : IsPlain emptied = put_file-IsPlain place [] disk plain in
              let plain' : IsPlain d = rw w.2 (put_file-IsPlain place w.1 emptied plain_emptied) in
              let y = x.1 plain' in
              let read : content (stat ca_cert_path emptied) ≡ content (disk.nodes ca_cert_path) =
                ap content (
                  stat-IsFree ca_cert_path emptied plain_emptied.cert
                  ∙ ap (λ q. (put_file q [] disk).nodes ca_cert_path) here) in
              (
                y.0,
                (
                  y.1.0 ∙ ap (λ t. t.nodes ca_cert_path) there,
                  y.1.1 ∙ ap (λ t. t.nodes ca_key_path) there,
                ),
                λ all c same.
                    let known : bytes ≡ c = ap read_again (read ∙ same) in
                    y.2 all c (
                      known,
                      ap (λ t. content (t.nodes trust_store_path)) there
                          ∙ ap some (w.3 (all file_flush) ∙ known),
                    ),
              ),
        ))
