-- ===== src/Storage/Stores/Reload.antt =====
-- What is loaded at start from the directories.
use dun_tunel.Prelude.{
  ℕ, ◌≤◌, ◌≡◌, refl, sym, ap, subst, ◌∙◌, inl, inr, Bool-cases, false, [], ◌∷◌, Option, none, some,
  Text, text_eq, text_eq_iff, text_eq_refl, decimal, lookup, insert, lookup-insert, if◌then◌else◌,
  Assoc,
}
use dun_tunel.Storage.Numbers.{u64_max}
use dun_tunel.Storage.Files.{Dir}
use dun_tunel.Storage.Files.Distinct.{Fresh, Distinct, lookup-Fresh, Distinct-atomic_write}
use dun_tunel.Storage.Stores.{
  session_path, read_sequence, keep, load_files, save_sequence, load_sequence, load_all_sequences,
}
use dun_tunel.Storage.Stores.Sequences.{save_sequence-load_sequence}

module _ {V : Type 0} (read : Option Text → Option V) (nothing : read none ≡ none) where
  keep-lookup :
      (k : ℕ) (name j : Text) (o : Option V) (rest : Assoc V)
      → text_eq j (k ∷ name) ≡ false
      → lookup (k ∷ name) (keep read j o rest) ≡ lookup (k ∷ name) rest
  keep-lookup k name [] o rest h = refl
  keep-lookup k name (c ∷ j) none rest h = refl
  keep-lookup k name (c ∷ j) (some v) rest h = lookup-insert (c ∷ j) (k ∷ name) v rest ∙ rw h refl

  keep-lookup_self :
      (k : ℕ) (name : Text) (o : Option V) (rest : Assoc V)
      → lookup (k ∷ name) rest ≡ none
      → lookup (k ∷ name) (keep read (k ∷ name) o rest) ≡ o
  keep-lookup_self k name none rest h = h
  keep-lookup_self k name (some v) rest h =
      lookup-insert (k ∷ name) (k ∷ name) v rest ∙ rw (text_eq_refl (k ∷ name)) refl

  pub load_files-lookup :
      (k : ℕ) (name : Text) (d : Dir)
      → Distinct d
      → lookup (k ∷ name) (load_files read d) ≡ read (lookup (k ∷ name) d)
  unfolding load_files lookup
  load_files-lookup k name [] h = sym nothing
  load_files-lookup k name ((j, contents) ∷ d) h = elim (Bool-cases (text_eq j (k ∷ name))) [
    | inl y ↦
        let same : j ≡ k ∷ name = (text_eq_iff j (k ∷ name)).0 y in
        let fresh : Fresh (k ∷ name) d = subst (λ i. Fresh i d) same h.0 in
        let gone : lookup (k ∷ name) (load_files read d) ≡ none =
          load_files-lookup k name d h.1 ∙ ap read (lookup-Fresh (k ∷ name) d fresh) ∙ nothing in
        rw y (
          ap (λ i. lookup (k ∷ name) (keep read i (read (some contents)) (load_files read d))) same
          ∙ keep-lookup_self k name (read (some contents)) (load_files read d) gone)
    | inr n ↦ rw n (
        keep-lookup k name j (read (some contents)) (load_files read d) n
        ∙ load_files-lookup k name d h.1)
  ]

load_all_sequences-load_sequence :
    (session_id : Text) (c : ℕ) (name : Text) (d : Dir)
    → session_path session_id ≡ c ∷ name
    → Distinct d
    → lookup (session_path session_id) (load_all_sequences d) ≡ load_sequence session_id d
unfolding load_all_sequences load_sequence read_sequence
load_all_sequences-load_sequence session_id c name d e h =
    subst (λ k. lookup k (load_files read_sequence d) ≡ read_sequence (lookup k d)) (sym e)
      (load_files-lookup read_sequence refl c name d h)

-- What is loaded at start for a session with a file name, after a number of 64 bits was saved for
-- some session in a directory of different names, is what was loaded before with the number put in.
pub save_sequence-load_all_sequences :
    (saved : Text) (sequence : ℕ) (other : Text) (c : ℕ) (name : Text) (d : Dir)
    → session_path other ≡ c ∷ name
    → Distinct d
    → sequence ≤ u64_max
    → lookup (session_path other) (load_all_sequences (save_sequence saved sequence d))
      ≡ lookup (session_path other) (insert (session_path saved) sequence (load_all_sequences d))
unfolding save_sequence
save_sequence-load_all_sequences saved sequence other c name d e h g =
    load_all_sequences-load_sequence other c name (save_sequence saved sequence d) e
      (Distinct-atomic_write (session_path saved) (decimal sequence ∷ []) d h)
    ∙ save_sequence-load_sequence saved other sequence d g
    ∙ ap (λ r. if text_eq (session_path saved) (session_path other) then some sequence else r)
        (sym (load_all_sequences-load_sequence other c name d e h))
    ∙ sym (lookup-insert (session_path saved) (session_path other) sequence (load_all_sequences d))
