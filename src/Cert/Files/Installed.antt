-- ===== src/Cert/Files/Installed.antt =====
-- What `install_ca_to_trust_store` does to the files and to the references.
use webcm.Common.{ℕ, ◌≡◌, refl, sym, ◌∙◌, ap, List, Option, none, some, some-injective}
use webcm.Cert.Heap.{Env, Heap}
use webcm.Cert.Rules.{Runs, Runs-pure, Runs-bind, Runs-mono, Runs-if, impossible, Owns, Succeeds}
use webcm.Cert.Objects.{X509, CertStore}
use webcm.Cert.Paths.{ca_cert_path, trust_store_path, Disk, stat, content}
use webcm.Cert.Trust.{up_to_date, copy_cert, install_cert, install_ca_to_trust_store}
use webcm.Cert.Files.{open_read-Runs}
use webcm.Cert.Files.Fresh.{IsStale, IsFresh, IsStale-up_to_date, IsFresh-up_to_date}
use webcm.Cert.Files.Copied.{Installs, open_write-Runs, copy_trust-Runs}
use webcm.Cert.Files.Plain.{IsPlain, stat-IsFree, writable-IsFree}

module _ (env : Env) (f : ℕ → ℕ) (disk : Disk) where
  copy_cert-Runs :
      {h : Heap} (o : Option (List ℕ))
      → Owns f h
      → (Succeeds env → o ≡ content (stat ca_cert_path disk))
      → Runs
          (Installs env f disk (λ c. content (disk.nodes ca_cert_path) ≡ some c))
          (copy_cert env disk o)
          h
  copy_cert-Runs {h} none v e = Runs-pure disk h (
    v,
    λ plain. (
      plain,
      (refl, refl),
      λ all c same.
          absurd (cc (e all, same, ap content (stat-IsFree ca_cert_path disk plain.cert))),
    ),
  )
  copy_cert-Runs {h} (some opened) v e =
      Runs-bind (open_write-Runs env f trust_store_path disk v) λ o h1 w.
        copy_trust-Runs env f disk o w.0
          (λ plain place e.
            some-injective place trust_store_path
              (sym (w.1 place e) ∙ writable-IsFree trust_store_path disk plain.trust))
          (λ plain all n.
            absurd (cc (w.2 all, n, writable-IsFree trust_store_path disk plain.trust)))

  -- What is installed, when it is.
  abbrev pub Updates : CertStore → Disk → Heap → Type 0
  Updates s d h =
      Installs env f disk
        (λ c. (s.ca_cert ≡ none → ⊥) × IsStale disk × (content (disk.nodes ca_cert_path) ≡ some c))
        d h
      × (IsPlain disk → IsFresh disk → d ≡ disk)

  install_cert-Runs :
      {h : Heap} (o : Option X509)
      → Owns f h
      → Runs
          (λ d h'.
            Installs env f disk
              (λ c. (o ≡ none → ⊥) × IsStale disk × (content (disk.nodes ca_cert_path) ≡ some c))
              d
              h'
            × (IsPlain disk → IsFresh disk → d ≡ disk))
          (install_cert env disk o)
          h
  install_cert-Runs {h} none v =
      Runs-pure disk h
        ((v, λ plain. (plain, (refl, refl), λ all c e. absurd (e.0 refl))), λ plain fresh. refl)
  install_cert-Runs {h} (some cert) v =
      Runs-if (up_to_date disk)
        (λ e. Runs-pure disk h (
          (
            v,
            λ plain.
                (plain, (refl, refl), λ all c n. impossible e (IsStale-up_to_date disk plain n.1)),
          ),
          λ plain fresh. refl,
        ))
        (λ e. Runs-bind (open_read-Runs env ca_cert_path disk v) λ o h1 w.
          Runs-mono (copy_cert-Runs o w.0 w.2) (λ d h2 x. (
            (x.0, λ plain. let y = x.1 plain in (y.0, y.1, λ all c n. y.2 all c n.2)),
            λ plain fresh. impossible (IsFresh-up_to_date disk plain fresh) e,
          )))

  pub install-Runs :
      {h : Heap} (s : CertStore)
      → Owns f h
      → Runs (Updates s) (install_ca_to_trust_store env disk s) h
  unfolding install_ca_to_trust_store
  install-Runs s v = install_cert-Runs s.ca_cert v
