-- ===== src/Storage/Stores/Leftovers.antt =====
-- What a crash leaves behind in the directory of crates/edge-control/src/subdomain_store.rs.
use dun_tunel.Prelude.{
  List, All, ◌≡◌, refl, ap, ◌∙◌, [], ◌∷◌, ◌++◌, some, Text, text, take, lookup, insert,
  lookup-insert_self, lookup-remove, text_eq, text_eq_iff, arith, false,
}
use dun_tunel.Storage.Files.{Dir, calls, call, tmp_name, atomic_write_calls}
use dun_tunel.Storage.Files.Distinct.{
  Distinct, Distinct-calls, Distinct-remove, Distinct-atomic_write,
}
use dun_tunel.Storage.Files.Cuts.{atomic_write-lookup}
use dun_tunel.Storage.Stores.{
  save_subdomain, session_path, read_subdomain, load_all_subdomains, remove_subdomain,
}
use dun_tunel.Storage.Stores.Sequences.{tmp_name-session_path}
use dun_tunel.Storage.Stores.Reload.{load_files-lookup}

-- The directory after a crash between the writing of a session's temporary file and the renaming.
abbrev pub cut_save : Text → Text → Dir → Dir
cut_save session_id subdomain d =
    calls (take 2 (atomic_write_calls (session_path session_id) (subdomain ∷ []) d)) d

cut_save-tmp_name :
    (session_id subdomain : Text) (d : Dir)
    → lookup (tmp_name (session_path session_id)) (cut_save session_id subdomain d) ≡ some subdomain
unfolding calls call atomic_write_calls
cut_save-tmp_name session_id subdomain d =
    let tmp = tmp_name (session_path session_id) in
    lookup-insert_self tmp _ (insert tmp [] d) ∙ rw (lookup-insert_self tmp [] d) refl

loaded-tmp_name :
    (session_id : Text) (d : Dir)
    → Distinct d
    → lookup (tmp_name (session_path session_id)) (load_all_subdomains d)
      ≡ read_subdomain (lookup (tmp_name (session_path session_id)) d)
unfolding tmp_name load_all_subdomains read_subdomain
loaded-tmp_name session_id d h =
    load_files-lookup read_subdomain refl b'.' (session_path session_id ++ text ".tmp") d h

session_path-tmp_name : (other name : Text) → text_eq (session_path other) (tmp_name name) ≡ false
session_path-tmp_name other name = ground (
  arith,
  tmp_name-session_path name other,
  text_eq_iff (session_path other) (tmp_name name),
  text_eq_iff (tmp_name name) (session_path other),
)

-- What other sessions do to the directory later.
pub data Change : Type 0 where
  saves : (session_id subdomain : Text) → Change
  removes : (session_id : Text) → Change

unfoldable pub changed : List Change → Dir → Dir
unfolding save_subdomain remove_subdomain
changed [] d = d
changed (saves other subdomain ∷ cs) d = changed cs (save_subdomain other subdomain d)
changed (removes other ∷ cs) d = changed cs (remove_subdomain other d)

-- A removal of any session, or a save of one with another temporary file.
abbrev pub IsOther : Text → Change → Type 0
IsOther session_id (saves other subdomain) =
    text_eq (tmp_name (session_path other)) (tmp_name (session_path session_id)) ≡ false
IsOther session_id (removes other) = Unit {0}

-- The temporary file of a session is there, with its subdomain.
abbrev Left : Text → Text → Dir → Type 0
Left session_id subdomain d =
    Distinct d × (lookup (tmp_name (session_path session_id)) d ≡ some subdomain)

changed-Left :
    (session_id subdomain : Text) (cs : List Change) (d : Dir)
    → All (IsOther session_id) cs
    → Left session_id subdomain d
    → Left session_id subdomain (changed cs d)
unfolding changed save_subdomain remove_subdomain
changed-Left session_id subdomain [] d os h = h
changed-Left session_id subdomain (saves other s ∷ cs) d os h =
    changed-Left session_id subdomain cs (save_subdomain other s d) os.1 (
      Distinct-atomic_write (session_path other) (s ∷ []) d h.0,
      atomic_write-lookup (session_path other) (tmp_name (session_path session_id)) (s ∷ []) d os.0
          ∙ rw (session_path-tmp_name other (session_path session_id)) (h.1),
    )
changed-Left session_id subdomain (removes other ∷ cs) d os h =
    changed-Left session_id subdomain cs (remove_subdomain other d) os.1 (
      Distinct-remove (session_path other) d h.0,
      lookup-remove (session_path other) (tmp_name (session_path session_id)) d
          ∙ rw (session_path-tmp_name other (session_path session_id)) (h.1),
    )

-- After a crash between the writing of the temporary file and the renaming, and any removals of
-- sessions and saves of sessions with another temporary file after it, a start loads the temporary
-- file as the subdomain of a session of that file's name.
pub save_subdomain-leftover :
    (session_id subdomain : Text) (cs : List Change) (d : Dir)
    → Distinct d
    → All (IsOther session_id) cs
    → lookup
        (tmp_name (session_path session_id))
        (load_all_subdomains (changed cs (cut_save session_id subdomain d)))
      ≡ read_subdomain (some subdomain)
save_subdomain-leftover session_id subdomain cs d h os =
    let cut = cut_save session_id subdomain d in
    let calls_done = take 2 (atomic_write_calls (session_path session_id) (subdomain ∷ []) d) in
    let left =
      changed-Left session_id subdomain cs cut os
        (Distinct-calls calls_done d h, cut_save-tmp_name session_id subdomain d) in
    loaded-tmp_name session_id (changed cs cut) left.0 ∙ ap read_subdomain left.1
