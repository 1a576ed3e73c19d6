-- ===== src/Cert/Serving.antt =====
-- The store between two calls.
pub mod Ready
pub mod Ensured
pub mod Cache
pub mod Copies
pub mod Issue
pub mod Answer
pub mod Promises
use webcm.Common.{
  ℕ, ◌+◌, ◌≡◌, ◌⊎◌, inl, inr, refl, sym, ◌∙◌, ap, List, [], ◌∷◌, Bool, true, false, if◌then◌else◌,
  Bool-cases, Option, none, some, Outcome, ok, arith,
}
use webcm.Cert.Heap.{Env, Heap, Action, pure, ◌>>=◌}
use webcm.Cert.Rules.{
  Runs, Runs-pure, Runs-bind, Runs-mono, Runs-if, impossible, Owns, Owns-same, Succeeds,
}
use webcm.Cert.Objects.{Certificate, X509, Key, CertPair, CertStore, new_store}
use webcm.Cert.Create.{create_ca}
use webcm.Cert.Authority.{held, IsMade, IsCreated, create_ca-Runs}
use webcm.Cert.Leaf.Issued.{IsIssued}
use webcm.Cert.Paths.{ca_cert_path, ca_key_path, Disk, content}
use webcm.Cert.Disk.{Pem, PemLaws, load_ca, save_ca}
use webcm.Cert.Trust.{install_ca_to_trust_store}
use webcm.Cert.Files.{OnDisk, IsLoaded, Loads}
use webcm.Cert.Files.Loaded.{load_ca-Runs}
use webcm.Cert.Files.Saved.{IsSaved, IsSaved-OnDisk, save_ca-Runs}
use webcm.Cert.Files.Plain.{IsPlain, Flushes, stat-IsFree}
use webcm.Cert.Files.Copied.{IsKept}
use webcm.Cert.Files.Installed.{install-Runs}
use webcm.Cert.Store.{
  lock, unlock, ca_ready, ca_saved, ca_created, ca_searched, ensure_locked, ensure_ca,
}

-- A pair for a host that the CA issued, at some time.
abbrev pub IsFor : Env → X509 → Key → List ℕ → CertPair → Type 0
IsFor env ca ca_key hostname pair = (now : ℕ) × IsIssued env now hostname ca ca_key pair

-- Every pair in the cache is for the name it stands under.
abbrev pub IsCached : Env → X509 → Key → List (List ℕ × CertPair) → Type 0
IsCached env ca ca_key [] = Unit {0}
IsCached env ca ca_key ((hostname, pair) ∷ cache) =
    IsFor env ca ca_key hostname pair × IsCached env ca ca_key cache

-- A CA is loaded, and it has issued what is in the cache.
pub record Serves (env : Env) (s : CertStore) : Type 0 where
  pub ca : X509
  pub ca_key : Key
  pub has_cert : s.ca_cert ≡ some ca
  pub has_key : s.ca_key ≡ some ca_key
  pub cache : IsCached env ca ca_key s.cert_cache

-- Nothing is locked; without a CA nothing is cached.
pub record IsIdle (env : Env) (s : CertStore) : Type 0 where
  pub unlocked : s.locked ≡ false
  pub loaded : s.ca_loaded ≡ true → Serves env s
  pub empty : s.ca_loaded ≡ false → s.cert_cache ≡ []

pub new_store-IsIdle : (env : Env) → IsIdle env new_store
new_store-IsIdle env = record { unlocked = refl; loaded = λ e. absurd (cc e); empty = λ e. refl }

-- The store has this CA.
pub record HasCa (c : Certificate) (secret : ℕ) (s : CertStore) : Type 0 where
  pub ca : X509
  pub ca_key : Key
  pub has_cert : s.ca_cert ≡ some ca
  pub has_key : s.ca_key ≡ some ca_key
  pub same_cert : ca.content ≡ c
  pub same_secret : ca_key.secret ≡ secret

-- The CA of the store is the one in the files.
abbrev pub IsStored : Pem → CertStore → Disk → Type 0
IsStored pem s disk = (c : Certificate) × (secret : ℕ) × HasCa c secret s × OnDisk pem disk c secret

-- On a disk without links in the way the search fails only if a call does; and if nothing is lost when
-- files are closed, the CA that it finds is in the files afterwards.
abbrev pub Finds : Env → Pem → Disk → Bool × CertStore × Disk → Type 0
Finds env pem start (b, s, disk) =
    IsPlain start → (Succeeds env → b ≡ true) × (Flushes env → b ≡ true → IsStored pem s disk)
