-- ===== src/Storage/Stores.antt =====
-- `SequenceStore` of crates/edge-bandwidth/src/persistence.rs and `SubdomainStore` of
-- crates/edge-control/src/subdomain_store.rs, each on its directory. Reading and removing files is
-- taken to work, and the id of a session to have a character that its file name keeps.

pub mod Sequences
pub mod Reload
pub mod Leftovers
use dun_tunel.Prelude.{
  ℕ, Bool, true, false, ◌&&◌, ◌||◌, ◌==◌, List, [], ◌∷◌, Option, none, some, Text, leb, trim,
  decimal, if◌then◌else◌, Assoc, lookup, insert, remove,
}
use dun_tunel.Storage.Files.{Dir, atomic_write}
use dun_tunel.Storage.Numbers.{parse_u64}

-- `is_ascii_alphanumeric`, '-' or '_'.
unfoldable pub is_safe : ℕ → Bool
is_safe c =
    (leb 48 c && leb c 57)
    || (leb 65 c && leb c 90)
    || (leb 97 c && leb c 122)
    || c == b'-'
    || c == b'_'

-- The name of the file for a session.
unfoldable pub session_path : Text → Text
unfolding is_safe
session_path [] = []
session_path (c ∷ s) = let rest = session_path s in if is_safe c then c ∷ rest else rest

unfoldable pub read_sequence : Option Text → Option ℕ
unfolding parse_u64
read_sequence none = none
read_sequence (some contents) = parse_u64 (trim contents)

unfoldable pub read_subdomain : Option Text → Option Text
read_subdomain none = none
read_subdomain (some contents) = elim (trim contents) [ [] ↦ none | c ∷ s ↦ some (c ∷ s) ]

-- The loop of `load_all`, by what it takes from a file.
module _ {V : Type 0} (read : Option Text → Option V) where
  abbrev pub keep : Text → Option V → Assoc V → Assoc V
  keep [] o rest = rest
  keep (c ∷ name) none rest = rest
  keep (c ∷ name) (some v) rest = insert (c ∷ name) v rest

  unfoldable pub load_files : Dir → Assoc V
  load_files [] = []
  load_files ((name, contents) ∷ d) = keep name (read (some contents)) (load_files d)

unfoldable pub save_sequence : Text → ℕ → Dir → Dir
unfolding session_path atomic_write decimal
save_sequence session_id sequence d =
    atomic_write (session_path session_id) (decimal sequence ∷ []) d

unfoldable pub load_sequence : Text → Dir → Option ℕ
unfolding read_sequence session_path lookup
load_sequence session_id d = read_sequence (lookup (session_path session_id) d)

unfoldable pub remove_file_of : Text → Dir → Dir
unfolding session_path remove
remove_file_of session_id d = remove (session_path session_id) d

unfoldable pub load_all_sequences : Dir → Assoc ℕ
unfolding load_files read_sequence
load_all_sequences d = load_files read_sequence d

unfoldable pub save_subdomain : Text → Text → Dir → Dir
unfolding session_path atomic_write
save_subdomain session_id subdomain d = atomic_write (session_path session_id) (subdomain ∷ []) d

unfoldable pub load_all_subdomains : Dir → Assoc Text
unfolding load_files read_subdomain
load_all_subdomains d = load_files read_subdomain d

-- `remove` of the subdomain store.
unfoldable pub remove_subdomain : Text → Dir → Dir
unfolding session_path remove
remove_subdomain session_id d = remove (session_path session_id) d
