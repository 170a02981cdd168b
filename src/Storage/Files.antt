-- ===== src/Storage/Files.antt =====
-- A directory, the calls that `atomic_write` makes on it, and what a crash leaves of them. Three files
-- have this function: crates/edge-bandwidth/src/persistence.rs,
-- crates/edge-control/src/subdomain_store.rs and crates/edge-rathole-bridge/src/config_writer.rs.
pub mod Cuts
pub mod Distinct
use dun_tunel.Prelude.{
  ℕ, Bool, true, false, List, [], ◌∷◌, ◌++◌, map, Option, none, some, Text, text, Assoc, lookup,
  insert, remove,
}

-- The files of a directory by their names.
abbrev pub Dir : Type 0
Dir = Assoc Text

-- `open_truncated` creates the file, or empties it; `append` is a write at its end.
pub data FileCall : Type 0 where
  open_truncated : Text → FileCall
  append : Text → Text → FileCall
  remove_file : Text → FileCall
  rename : Text → Text → FileCall

abbrev pub contents_or_empty : Option Text → Text
contents_or_empty none = []
contents_or_empty (some t) = t

abbrev pub move_to : Text → Text → Option Text → Dir → Dir
move_to from to none d = d
move_to from to (some t) d = insert to t (remove from d)

unfoldable pub call : FileCall → Dir → Dir
unfolding lookup insert remove
call (open_truncated name) d = insert name [] d
call (append name piece) d = insert name (contents_or_empty (lookup name d) ++ piece) d
call (remove_file name) d = remove name d
call (rename from to) d = move_to from to (lookup from d) d

unfoldable pub calls : List FileCall → Dir → Dir
unfolding call
calls [] d = d
calls (c ∷ cs) d = calls cs (call c d)

unfoldable pub concat : List Text → Text
concat [] = []
concat (piece ∷ pieces) = piece ++ concat pieces

-- The name of the temporary file.
unfoldable pub tmp_name : Text → Text
tmp_name name = text "." ++ name ++ text ".tmp"

abbrev pub removal : Text → Option Text → List FileCall
removal name none = []
removal name (some t) = remove_file name ∷ []

-- `write_all` writes the contents in pieces, as many as the system takes them in.
unfoldable pub atomic_write_calls : Text → List Text → Dir → List FileCall
unfolding tmp_name lookup
atomic_write_calls name pieces d =
    open_truncated (tmp_name name)
    ∷ (map (append (tmp_name name)) pieces
        ++ (removal name (lookup name d) ++ rename (tmp_name name) name ∷ []))

unfoldable pub atomic_write : Text → List Text → Dir → Dir
unfolding atomic_write_calls calls
atomic_write name pieces d = calls (atomic_write_calls name pieces d) d
