-- ===== src/Cert/Files/Fresh.antt =====
-- When the copies of the CA's certificate are out of date.
use webcm.Common.{
  ℕ, ◌<◌, ◌≡◌, ◌⊎◌, inl, inr, refl, ◌∙◌, List, true, false, leb, lt→leb_false, le→leb, ◌≤◌,
  Bool-cases, Option, none, some,
}
use webcm.Cert.Paths.{FilePath, ca_cert_path, trust_store_path, cert_pem_path, file, Disk, mtime}
use webcm.Cert.Trust.{newer, up_to_date}
use webcm.Cert.Files.Plain.{IsPlain, stat-IsFree}

-- The file at the first path was changed before the file at the second.
pub record IsOlder (disk : Disk) (path than : FilePath) : Type 0 where
  pub time : ℕ
  pub time' : ℕ
  pub bytes : List ℕ
  pub bytes' : List ℕ
  pub at_path : disk.nodes path ≡ some (file time bytes)
  pub at_than : disk.nodes than ≡ some (file time' bytes')
  pub before : time < time'

-- A copy is missing, or older than the certificate.
abbrev pub IsStale : Disk → Type 0
IsStale disk =
    (disk.nodes trust_store_path ≡ none)
    ⊎ (disk.nodes cert_pem_path ≡ none)
    ⊎ IsOlder disk trust_store_path ca_cert_path
    ⊎ IsOlder disk cert_pem_path ca_cert_path

-- Both copies are there, and neither is older than the certificate.
pub record IsFresh (disk : Disk) : Type 0 where
  pub cert_time : ℕ
  pub trust_time : ℕ
  pub pem_time : ℕ
  pub cert_bytes : List ℕ
  pub trust_bytes : List ℕ
  pub pem_bytes : List ℕ
  pub cert : disk.nodes ca_cert_path ≡ some (file cert_time cert_bytes)
  pub trust : disk.nodes trust_store_path ≡ some (file trust_time trust_bytes)
  pub cert_pem : disk.nodes cert_pem_path ≡ some (file pem_time pem_bytes)
  pub trust_not_older : cert_time ≤ trust_time
  pub pem_not_older : cert_time ≤ pem_time

newer_no_pem : (t c : Option ℕ) → newer t c none ≡ false
newer_no_pem none c = refl
newer_no_pem (some t) none = refl
newer_no_pem (some t) (some c) = refl

newer_old_trust : (t c : ℕ) (p : Option ℕ) → leb c t ≡ false → newer (some t) (some c) p ≡ false
newer_old_trust t c none e = refl
newer_old_trust t c (some p) e = rw e refl

newer_old_pem : (t : Option ℕ) (c p : ℕ) → leb c p ≡ false → newer t (some c) (some p) ≡ false
newer_old_pem none c p e = refl
newer_old_pem (some t) c p e = elim (Bool-cases (leb c t)) [
  | inl le ↦ rw (le, e) refl
  | inr gt ↦ rw gt refl
]

module _ (disk : Disk) (plain : IsPlain disk) where
  -- The times that the code compares are those of the files themselves.
  up_to_date_nodes :
      up_to_date disk
      ≡ newer
          (mtime (disk.nodes trust_store_path))
          (mtime (disk.nodes ca_cert_path))
          (mtime (disk.nodes cert_pem_path))
  unfolding up_to_date
  up_to_date_nodes =
      rw
        (
          stat-IsFree trust_store_path disk plain.trust,
          stat-IsFree ca_cert_path disk plain.cert,
          stat-IsFree cert_pem_path disk plain.cert_pem,
        )
        refl

  pub IsStale-up_to_date : IsStale disk → up_to_date disk ≡ false
  IsStale-up_to_date (inl e) = up_to_date_nodes ∙ rw e refl
  IsStale-up_to_date (inr (inl e)) =
      up_to_date_nodes
      ∙ (rw e
          (newer_no_pem (mtime (disk.nodes trust_store_path)) (mtime (disk.nodes ca_cert_path))))
  IsStale-up_to_date (inr (inr (inl older))) =
      up_to_date_nodes
      ∙ (rw (older.at_path, older.at_than)
          (newer_old_trust older.time older.time' (mtime (disk.nodes cert_pem_path))
            (lt→leb_false older.time' older.time older.before)))
  IsStale-up_to_date (inr (inr (inr older))) =
      up_to_date_nodes
      ∙ (rw (older.at_path, older.at_than)
          (newer_old_pem (mtime (disk.nodes trust_store_path)) older.time' older.time
            (lt→leb_false older.time' older.time older.before)))

  pub IsFresh-up_to_date : IsFresh disk → up_to_date disk ≡ true
  IsFresh-up_to_date fresh =
      up_to_date_nodes
      ∙ (rw (fresh.cert, fresh.trust, fresh.cert_pem)
          (rw
            (
              le→leb fresh.cert_time fresh.trust_time fresh.trust_not_older,
              le→leb fresh.cert_time fresh.pem_time fresh.pem_not_older,
            )
            refl))
