-- ===== src/Cert/Files/Loaded.antt =====
-- The whole of `load_ca`.
use webcm.Common.{ℕ, ◌+◌, ◌≡◌, refl, ap, List, Bool, true, Option, none, some, arith}
use webcm.Cert.Heap.{bio_new_mem_buf, Env, Heap, occurs}
use webcm.Cert.Rules.{
  Runs, Runs-bind, Owns, free-Runs, free_some-Runs, occurs_some, is_some, Succeeds, create-Runs,
}
use webcm.Cert.Objects.{CertStore, cert_id, key_id}
use webcm.Cert.Authority.{held}
use webcm.Cert.Paths.{ca_cert_path, ca_key_path, Disk, stat, content}
use webcm.Cert.Disk.{Pem, load_bios, load_files, load_ca}
use webcm.Cert.Files.{
  Loads, not_loaded, base, open_read-Runs, read_x509-Runs, read_private_key-Runs, load_pair-Runs,
}

module _ (env : Env) (pem : Pem) (disk : Disk) (f : ℕ → ℕ) (s : CertStore) where
  module _ (cert_pem key_pem : List ℕ)
      (cert_file : content (stat ca_cert_path disk) ≡ some cert_pem)
      (key_file : content (stat ca_key_path disk) ≡ some key_pem) where
    both_bios :
        (cert_bio key_bio : ℕ) (h : Heap)
        → Owns (λ k. occurs key_bio k + (occurs cert_bio k + base env pem disk f s k)) h
        → Runs
            (Loads env pem disk f s)
            (load_bios env pem s cert_pem key_pem (some cert_bio) (some key_bio))
            h
    both_bios cert_bio key_bio h v =
        let b = base env pem disk f s in
        Runs-bind (read_x509-Runs env pem _ (pem.read_cert cert_pem) v) λ cert h1 w.
          Runs-bind (read_private_key-Runs env pem _ (pem.read_key key_pem) w.0) λ key h2 x.
            Runs-bind
              (free-Runs
                {g = λ k.
                  occurs key_bio k
                  + (occurs_some (cert_id cert) k + (occurs_some (key_id key) k + b k))}
                cert_bio x.0 (λ k. omega arith))
              λ u h3 y.
                Runs-bind
                  (free-Runs
                    {g = λ k. occurs_some (cert_id cert) k + (occurs_some (key_id key) k + b k)}
                    key_bio y (λ k. omega arith))
                  λ u' h4 z.
                    load_pair-Runs env pem disk f s cert_pem key_pem cert_file key_file cert key h4
                      z w.1 x.1 w.2 x.2

    load_bios-Runs :
        (h : Heap) (o p : Option ℕ)
        → Owns (λ k. occurs_some p k + (occurs_some o k + base env pem disk f s k)) h
        → (o ≡ none → Succeeds env → ⊥)
        → (p ≡ none → Succeeds env → ⊥)
        → Runs (Loads env pem disk f s) (load_bios env pem s cert_pem key_pem o p) h
    load_bios-Runs h (some o) (some p) v e e' = both_bios o p h v
    load_bios-Runs h none p v e e' =
        Runs-bind (free_some-Runs {g = base env pem disk f s} p v (λ k. omega arith))
          λ u h1 w. not_loaded env pem disk f s w (λ all c secret on. e refl all)
    load_bios-Runs h (some o) none v e e' =
        Runs-bind (free-Runs {g = base env pem disk f s} o v (λ k. omega arith))
          λ u h1 w. not_loaded env pem disk f s w (λ all c secret on. e' refl all)

  load_files-Runs :
      (o p : Option (List ℕ)) (h : Heap)
      → Owns (base env pem disk f s) h
      → ((bytes : List ℕ) → o ≡ some bytes → content (stat ca_cert_path disk) ≡ some bytes)
      → ((bytes : List ℕ) → p ≡ some bytes → content (stat ca_key_path disk) ≡ some bytes)
      → (Succeeds env → o ≡ content (stat ca_cert_path disk))
      → (Succeeds env → p ≡ content (stat ca_key_path disk))
      → Runs (Loads env pem disk f s) (load_files env pem s o p) h
  load_files-Runs none p h v e e' g g' =
      not_loaded env pem disk f s v (λ all c secret on. absurd (cc (g all, on.cert_file)))
  load_files-Runs (some cert_pem) none h v e e' g g' =
      not_loaded env pem disk f s v (λ all c secret on. absurd (cc (g' all, on.key_file)))
  load_files-Runs (some cert_pem) (some key_pem) h v e e' g g' =
      Runs-bind (create-Runs env bio_new_mem_buf v) λ o h1 w.
        Runs-bind (create-Runs env bio_new_mem_buf w.0) λ p h2 x.
          load_bios-Runs cert_pem key_pem (e cert_pem refl) (e' key_pem refl) h2 o p x.0
            (λ n all. missing (all bio_new_mem_buf h.asked) w.1 n)
            (λ n all. missing (all bio_new_mem_buf h1.asked) x.1 n)
    where
      missing : {b : Bool} {o : Option ℕ} → b ≡ true → b ≡ is_some o → o ≡ none → ⊥
      missing e e' n = absurd (cc (ap (λ q. is_some q) n))

  pub load_ca-Runs :
      {h : Heap}
      → Owns (λ k. held s k + f k) h
      → Runs (Loads env pem disk f s) (load_ca env pem disk s) h
  unfolding load_ca
  load_ca-Runs v = Runs-bind (open_read-Runs env ca_cert_path disk v) λ o h1 w.
      Runs-bind (open_read-Runs env ca_key_path disk w.0)
        λ p h2 x. load_files-Runs o p h2 x.0 w.1 x.1 w.2 x.2
