-- ===== src/Storage/Stores/Sequences.antt =====
-- What a sequence number is after it was saved, or after a crash while it was saved.
use dun_tunel.Prelude.{
  ℕ, ◌≤◌, ◌≡◌, refl, ap, ◌∙◌, ◌⊎◌, inl, inr, Bool-cases, true, false, ◌==◌, List, [], ◌∷◌, ◌++◌,
  none, some, Text, text, text_eq, All, take, arith, decimal, lookup, if◌then◌else◌,
}
use dun_tunel.Storage.Numbers.{u64_max, parse_u64-decimal}
use dun_tunel.Storage.Files.{Dir, calls, concat, tmp_name, atomic_write_calls, atomic_write}
use dun_tunel.Storage.Files.Cuts.{atomic_write-cut, atomic_write-lookup}
use dun_tunel.Storage.Stores.{is_safe, session_path, read_sequence, save_sequence, load_sequence}

session_path-safe : (s : Text) → All (λ c. is_safe c ≡ true) (session_path s)
unfolding session_path
session_path-safe [] = tt
session_path-safe (c ∷ s) = elim (Bool-cases (is_safe c)) [
  | inl y ↦ rw y (y, session_path-safe s)
  | inr n ↦ rw n (session_path-safe s)
]

safe-session_path : (s : Text) → All (λ c. is_safe c ≡ true) s → session_path s ≡ s
unfolding session_path
safe-session_path [] h = refl
safe-session_path (c ∷ s) h = rw h.0 (ap (λ t. c ∷ t) (safe-session_path s h.1))

pub session_path_idem : (s : Text) → session_path (session_path s) ≡ session_path s
session_path_idem s = safe-session_path (session_path s) (session_path-safe s)

-- No session's file is a temporary one: its name has no dot.
pub tmp_name-session_path : (name s : Text) → text_eq (tmp_name name) (session_path s) ≡ false
unfolding tmp_name text_eq is_safe
tmp_name-session_path name s = from (session_path s) (session_path-safe s)
  where
    from :
        (t : Text)
        → All (λ c. is_safe c ≡ true) t
        → text_eq (text "." ++ name ++ text ".tmp") t ≡ false
    from [] h = refl
    from (c ∷ t) h = let no_dot : (b'.' == c) ≡ false = ground (arith, h.0) in rw no_dot refl

append-nil : (s : Text) → s ++ [] ≡ s
append-nil [] = refl
append-nil (c ∷ s) = ap (λ v. c ∷ v) (append-nil s)

-- A number that was saved is loaded; the sessions with another file keep theirs.
pub save_sequence-load_sequence :
    (saved other : Text) (sequence : ℕ) (d : Dir)
    → sequence ≤ u64_max
    → load_sequence other (save_sequence saved sequence d) ≡ (
        if text_eq (session_path saved) (session_path other)
        then some sequence
        else load_sequence other d)
unfolding load_sequence save_sequence read_sequence concat
save_sequence-load_sequence saved other sequence d h =
    let written =
      atomic_write-lookup (session_path saved) (session_path other) (decimal sequence ∷ []) d
        (tmp_name-session_path (session_path saved) other) in
    elim (Bool-cases (text_eq (session_path saved) (session_path other))) [
      | inl y ↦
          let found : lookup (session_path other)
                (atomic_write (session_path saved) (decimal sequence ∷ []) d)
              ≡ some (decimal sequence) =
            written ∙ rw y (ap some (append-nil (decimal sequence))) in
          rw y (ap read_sequence found ∙ parse_u64-decimal sequence h)
      | inr n ↦
          let kept : lookup (session_path other)
                (atomic_write (session_path saved) (decimal sequence ∷ []) d)
              ≡ lookup (session_path other) d =
            written ∙ rw n refl in
          rw n (ap read_sequence kept)
    ]

-- A crash while a number of 64 bits is saved, in whatever pieces, leaves the old number, or none, or
-- the new.
pub save_sequence-cut :
    (session_id : Text) (sequence : ℕ) (pieces : List Text) (n : ℕ) (d : Dir)
    → sequence ≤ u64_max
    → concat pieces ≡ decimal sequence
    → let after =
        load_sequence session_id
          (calls (take n (atomic_write_calls (session_path session_id) pieces d)) d) in
      (after ≡ load_sequence session_id d) ⊎ ((after ≡ none) ⊎ (after ≡ some sequence))
unfolding load_sequence read_sequence
save_sequence-cut session_id sequence pieces n d h e =
    elim (atomic_write-cut (session_path session_id) pieces n d) [
      | inl old ↦ inl (ap read_sequence old)
      | inr rest ↦ elim rest [
        | inl gone ↦ inr (inl (ap read_sequence gone))
        | inr new ↦ inr (inr (ap read_sequence (new ∙ ap some e) ∙ parse_u64-decimal sequence h))
      ]
    ]
