-- ===== src/Cert/Files/Plain.antt =====
-- Disks on which no link and no directory stands where the certificates are written.
use webcm.Common.{
  ℕ, ◌≡◌, inl, inr, refl, sym, ◌∙◌, ap, List, Bool, true, false, if◌then◌else◌, Bool-cases, Option,
  none, some,
}
use webcm.Cert.Heap.{file_flush, Env, Heap}
use webcm.Cert.Rules.{Runs, Runs-pure, Runs-bind, Owns, ask-Runs}
use webcm.Cert.Paths.{
  FilePath, parent_dir, ca_dir, ca_cert_path, ca_key_path, trust_store_path, cert_pem_path, Node,
  directory, file, link, Disk, path_eq, link_step, target_of, node_at, stat, is_there, place_at,
  unless_directory, writable, put_file, make_dir,
}
use webcm.Cert.Disk.{close_file}
use webcm.Cert.Files.Left.{left-Runs}

-- Nothing, or a file.
abbrev pub IsFree : Option Node → Type 0
IsFree none = Unit {0}
IsFree (some (file time bytes)) = Unit {0}
IsFree (some (directory time)) = ⊥
IsFree (some (link time target)) = ⊥

pub record IsPlain (disk : Disk) : Type 0 where
  pub cert : IsFree (disk.nodes ca_cert_path)
  pub key : IsFree (disk.nodes ca_key_path)
  pub trust : IsFree (disk.nodes trust_store_path)
  pub cert_pem : IsFree (disk.nodes cert_pem_path)

-- What is written to a file reaches it when it is closed.
abbrev pub Flushes : Env → Type 0
Flushes env = (n : ℕ) → env.answers file_flush n ≡ true

link_step-IsFree :
    (o : Option Node) (path : FilePath) (rest : FilePath → Option FilePath)
    → IsFree o
    → link_step o path rest ≡ some path
link_step-IsFree none path rest v = refl
link_step-IsFree (some (file time bytes)) path rest v = refl
link_step-IsFree (some (directory time)) path rest v = absurd v
link_step-IsFree (some (link time target)) path rest v = absurd v

unless_directory-IsFree :
    (o : Option Node) (path : FilePath) → IsFree o → unless_directory o path ≡ some path
unless_directory-IsFree none path v = refl
unless_directory-IsFree (some (file time bytes)) path v = refl
unless_directory-IsFree (some (directory time)) path v = absurd v
unless_directory-IsFree (some (link time target)) path v = absurd v

target_of-IsFree :
    (path : FilePath) (disk : Disk) → IsFree (disk.nodes path) → target_of 41 path disk ≡ some path
unfolding target_of
target_of-IsFree path disk v =
    link_step-IsFree (disk.nodes path) path (λ target. target_of 40 target disk) v

-- There a path is looked at, and written to, where it says.
pub stat-IsFree :
    (path : FilePath) (disk : Disk) → IsFree (disk.nodes path) → stat path disk ≡ disk.nodes path
unfolding stat
stat-IsFree path disk v = ap (λ o. node_at o disk) (target_of-IsFree path disk v)

pub writable-IsFree :
    (path : FilePath) (disk : Disk) → IsFree (disk.nodes path) → writable path disk ≡ some path
unfolding writable
writable-IsFree path disk v =
    ap (λ o. place_at o disk) (target_of-IsFree path disk v)
    ∙ unless_directory-IsFree (disk.nodes path) path v

IsFree-if :
    (b : Bool) (o : Option Node) (time : ℕ) (bytes : List ℕ)
    → IsFree o
    → IsFree (if b then some (file time bytes) else o)
IsFree-if true o time bytes v = tt
IsFree-if false o time bytes v = v

-- Writing files, and making the directories, leaves it so.
pub put_file-IsPlain :
    (path : FilePath) (bytes : List ℕ) (disk : Disk)
    → IsPlain disk
    → IsPlain (put_file path bytes disk)
put_file-IsPlain path bytes disk v = record {
  cert = IsFree-if (path_eq path ca_cert_path) _ disk.now bytes v.cert;
  key = IsFree-if (path_eq path ca_key_path) _ disk.now bytes v.key;
  trust = IsFree-if (path_eq path trust_store_path) _ disk.now bytes v.trust;
  cert_pem = IsFree-if (path_eq path cert_pem_path) _ disk.now bytes v.cert_pem;
}

pub make_parent-IsPlain : (disk : Disk) → IsPlain disk → IsPlain (make_dir parent_dir disk)
make_parent-IsPlain disk v = elim (Bool-cases (is_there (disk.nodes parent_dir))) [
  | inl there ↦ rw there v
  | inr gone ↦
      rw gone (record { cert = v.cert; key = v.key; trust = v.trust; cert_pem = v.cert_pem })
]

pub make_ca_dir-IsPlain : (disk : Disk) → IsPlain disk → IsPlain (make_dir ca_dir disk)
make_ca_dir-IsPlain disk v = elim (Bool-cases (is_there (disk.nodes ca_dir))) [
  | inl there ↦ rw there v
  | inr gone ↦
      rw gone (record { cert = v.cert; key = v.key; trust = v.trust; cert_pem = v.cert_pem })
]

-- A file that is closed holds something, and if nothing is lost what was written.
pub close_file-Runs :
    {f : ℕ → ℕ} {h : Heap} (env : Env) (path : FilePath) (bytes : List ℕ) (disk : Disk)
    → Owns f h
    → Runs
        (λ d h'.
          Owns f h'
          × (kept : List ℕ) × (d ≡ put_file path kept disk)
          × (Flushes env → kept ≡ bytes))
        (close_file env path bytes disk)
        h
unfolding close_file
close_file-Runs {h = h} env path bytes disk v =
    Runs-bind (ask-Runs env file_flush v) λ flushed h1 w.
      Runs-bind (left-Runs env w.0) λ partial h2 x. Runs-pure _ h2 (
        x,
        (if flushed then bytes else partial),
        refl,
        λ all. ap (λ b. if b then bytes else partial) (sym w.1 ∙ all h.asked),
      )
