-- ===== src/Storage/Files.antt =====
-- The files below the storage root as src-tauri/crates/mhost-storage/src/storage.rs uses them: a
-- directory of `<id>.json` files for each mode. A directory that does not exist is an empty one, and
-- a file of another kind, which every operation skips, is left out.
use m_host.Common.{
  Text, ℕ, Option, none, some, List, [], ◌∷◌, if◌then◌else◌, ◌==◌, ◌≡◌, refl, arith,
}
use m_host.Core.Models.{Uuid, ProfileMode, hosts, dns}

-- `content` is `none` where the file cannot be read as text, `modified` where its time cannot.
pub record File : Type 0 where
  pub content : Option Text
  pub modified : Option ℕ

abbrev pub Dir : Type 0
Dir = List (Uuid × File)

unfoldable pub get_file : Uuid → Dir → Option File
get_file id [] = none
get_file id ((k, f) ∷ rest) = let found = get_file id rest in if k == id then some f else found

unfoldable pub put_file : Uuid → File → Dir → Dir
put_file id new [] = (id, new) ∷ []
put_file id new ((k, f) ∷ rest) =
    let later = put_file id new rest in if k == id then (k, new) ∷ rest else (k, f) ∷ later

unfoldable pub remove_file : Uuid → Dir → Dir
remove_file id [] = []
remove_file id ((k, f) ∷ rest) =
    let later = remove_file id rest in if k == id then later else (k, f) ∷ later

pub record Files : Type 0 where
  pub hosts_dir : Dir
  pub dns_dir : Dir

-- `profiles_dir_for_mode`
abbrev pub dir_of : ProfileMode → Files → Dir
dir_of hosts fs = fs.hosts_dir
dir_of dns fs = fs.dns_dir

abbrev pub set_dir : ProfileMode → Dir → Files → Files
set_dir hosts d fs = record fs { hosts_dir = d }
set_dir dns d fs = record fs { dns_dir = d }

abbrev pub other_mode : ProfileMode → ProfileMode
other_mode hosts = dns
other_mode dns = hosts

pub get_file-put_file :
    (k id : Uuid) (f : File) (d : Dir)
    → get_file k (put_file id f d) ≡ (if id == k then some f else get_file k d)
unfolding get_file put_file
get_file-put_file k id f [] = refl
get_file-put_file k id f ((j, g) ∷ d) = ground (arith, get_file-put_file k id f d)

pub get_file-remove_file :
    (k id : Uuid) (d : Dir)
    → get_file k (remove_file id d) ≡ (if id == k then none else get_file k d)
unfolding get_file remove_file
get_file-remove_file k id [] = ground arith
get_file-remove_file k id ((j, g) ∷ d) = ground (arith, get_file-remove_file k id d)
