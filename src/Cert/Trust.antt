-- ===== src/Cert/Trust.antt =====
-- `install_ca_to_trust_store` of https-proxy/cert_store.cpp.
use webcm.Common.{ℕ, Bool, false, leb, ◌&&◌, if◌then◌else◌, Option, none, some, List, []}
use webcm.Cert.Heap.{open_file, unlink, symlink, Env, Action, pure, ◌>>=◌, ask, try}
use webcm.Cert.Objects.{X509, CertStore}
use webcm.Cert.Paths.{
  FilePath, ca_cert_path, trust_store_path, cert_pem_path, certs_dir, cert_link, link, Disk,
  set_node, stat, content, mtime, is_there, exists, writable, put_file,
}
use webcm.Cert.Disk.{open_read, close_file}

-- All three are there, and the copies are not older than the certificate.
abbrev pub newer : Option ℕ → Option ℕ → Option ℕ → Bool
newer (some trust) (some cert) (some pem) = leb cert trust && leb cert pem
newer none cert pem = false
newer (some trust) none pem = false
newer (some trust) (some cert) none = false

unfoldable pub up_to_date : Disk → Bool
up_to_date disk =
    newer (mtime (stat trust_store_path disk)) (mtime (stat ca_cert_path disk))
      (mtime (stat cert_pem_path disk))

-- `symlink`, which makes no link where something stands.
abbrev pub make_link : Disk → Disk
make_link disk =
    if is_there (disk.nodes cert_link)
    then disk
    else set_node cert_link (some (link disk.now trust_store_path)) disk

abbrev pub read_again : Option (List ℕ) → List ℕ
read_again none = []
read_again (some bytes) = bytes

module _ (env : Env) where
  -- The link of old is removed, and a new one made.
  unfoldable pub relink : Disk → Action Disk
  relink disk =
      if exists certs_dir disk
      then (do
        disk' ← try env unlink (set_node cert_link none) disk
        try env symlink make_link disk')
      else pure disk

  -- An `std::ofstream`: the place of the file, if it is open.
  unfoldable pub open_write : FilePath → Disk → Action (Option FilePath)
  open_write path disk = do
    opened ← ask env open_file
    pure (if opened then writable path disk else none)

  abbrev pub copy_pem : List ℕ → Disk → Option FilePath → Action Disk
  copy_pem cert_content disk none = relink disk
  copy_pem cert_content disk (some path) = close_file env path cert_content disk >>= relink

  abbrev pub copy_content : List ℕ → Disk → Action Disk
  copy_content cert_content disk = open_write cert_pem_path disk >>= copy_pem cert_content disk

  -- The file of the trust store is emptied when it is opened, and then the certificate is read.
  abbrev pub copy_trust : Disk → Option FilePath → Action Disk
  copy_trust disk none = pure disk
  copy_trust disk (some path) =
      let emptied = put_file path [] disk in
      let cert_content = read_again (content (stat ca_cert_path emptied)) in
      close_file env path cert_content emptied >>= copy_content cert_content

  abbrev pub copy_cert : Disk → Option (List ℕ) → Action Disk
  copy_cert disk none = pure disk
  copy_cert disk (some opened) = open_write trust_store_path disk >>= copy_trust disk

  abbrev pub install_cert : Disk → Option X509 → Action Disk
  install_cert disk none = pure disk
  install_cert disk (some cert) =
      if up_to_date disk then pure disk else (open_read env ca_cert_path disk >>= copy_cert disk)

  unfoldable pub install_ca_to_trust_store : Disk → CertStore → Action Disk
  install_ca_to_trust_store disk store = install_cert disk store.ca_cert
