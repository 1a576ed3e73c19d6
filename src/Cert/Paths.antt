-- ===== src/Cert/Paths.antt =====
-- The paths that https-proxy/cert_store.cpp names, and what stands there: files, directories and links.
use webcm.Common.{
  zero, suc, ◌==◌, ℕ, Bool, true, false, if◌then◌else◌, Option, none, some, List, [],
}

-- `/etc/ssl`, `/etc/ssl/webcm`, `mitm-ca.crt` and `mitm-ca.key` in it,
-- `/usr/local/share/ca-certificates/webcm-mitm-ca.crt`, `/etc/ssl/cert.pem`, `/etc/ssl/certs`,
-- `webcm-mitm-ca.crt` in it, and whatever else a link may lead to.
pub data FilePath : Type 0 where
  parent_dir ca_dir ca_cert_path ca_key_path trust_store_path cert_pem_path certs_dir cert_link :
      FilePath
  elsewhere : ℕ → FilePath

-- What stands at a path itself, with the time of its last change.
pub data Node : Type 0 where
  directory : ℕ → Node
  file : ℕ → List ℕ → Node
  link : ℕ → FilePath → Node

pub record Disk : Type 0 where
  pub now : ℕ
  pub nodes : FilePath → Option Node

abbrev pub path_eq : FilePath → FilePath → Bool
path_eq parent_dir parent_dir = true
path_eq ca_dir ca_dir = true
path_eq ca_cert_path ca_cert_path = true
path_eq ca_key_path ca_key_path = true
path_eq trust_store_path trust_store_path = true
path_eq cert_pem_path cert_pem_path = true
path_eq certs_dir certs_dir = true
path_eq cert_link cert_link = true
path_eq (elsewhere m) (elsewhere n) = m == n
path_eq _ _ = false

abbrev pub set_node : FilePath → Option Node → Disk → Disk
set_node path node disk = record disk { nodes = λ p. if path_eq path p then node else disk.nodes p }

-- The end of the links from a path, of which Linux follows 40: none if there are more.
abbrev pub link_step : Option Node → FilePath → (FilePath → Option FilePath) → Option FilePath
link_step (some (link time target)) path rest = rest target
link_step (some (directory time)) path rest = some path
link_step (some (file time bytes)) path rest = some path
link_step none path rest = some path

unfoldable pub target_of : ℕ → FilePath → Disk → Option FilePath
target_of zero path disk = none
target_of (suc n) path disk = link_step (disk.nodes path) path (λ target. target_of n target disk)

abbrev pub node_at : Option FilePath → Disk → Option Node
node_at none disk = none
node_at (some path) disk = disk.nodes path

-- `stat`, which follows the links.
unfoldable pub stat : FilePath → Disk → Option Node
unfolding target_of
stat path disk = node_at (target_of 41 path disk) disk

-- What can be read of it: an `std::ifstream` of a directory opens, and reads nothing.
abbrev pub content : Option Node → Option (List ℕ)
content (some (file time bytes)) = some bytes
content (some (directory time)) = some []
content (some (link time target)) = none
content none = none

-- The time of the last change.
abbrev pub mtime : Option Node → Option ℕ
mtime none = none
mtime (some (file time bytes)) = some time
mtime (some (directory time)) = some time
mtime (some (link time target)) = none

abbrev pub is_there : Option Node → Bool
is_there none = false
is_there (some node) = true

unfoldable pub exists : FilePath → Disk → Bool
unfolding stat
exists path disk = is_there (stat path disk)

-- Where a file is that is opened for writing, which follows links and does not open a directory.
abbrev pub unless_directory : Option Node → FilePath → Option FilePath
unless_directory (some (directory time)) path = none
unless_directory (some (file time bytes)) path = some path
unless_directory (some (link time target)) path = none
unless_directory none path = some path

abbrev pub place_at : Option FilePath → Disk → Option FilePath
place_at none disk = none
place_at (some path) disk = unless_directory (disk.nodes path) path

unfoldable pub writable : FilePath → Disk → Option FilePath
unfolding target_of
writable path disk = place_at (target_of 41 path disk) disk

abbrev pub put_file : FilePath → List ℕ → Disk → Disk
put_file path bytes disk = set_node path (some (file disk.now bytes)) disk

-- `mkdir`, if it makes the directory, which it does not where something stands.
abbrev pub make_dir : FilePath → Disk → Disk
make_dir path disk =
    if is_there (disk.nodes path) then disk else set_node path (some (directory disk.now)) disk
