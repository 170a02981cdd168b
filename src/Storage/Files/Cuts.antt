-- ===== src/Storage/Files/Cuts.antt =====
-- What a write leaves behind when it is cut short.
use dun_tunel.Prelude.{
  ℕ, zero, suc, ◌+◌, ◌≡◌, refl, sym, ap, ◌∙◌, ◌⊎◌, inl, inr, false, List, [], ◌∷◌, ◌++◌, map,
  Option, none, some, Text, text, text_eq, text_eq_iff, lookup, insert, remove, lookup-insert,
  lookup-remove, lookup-insert_self, lookup-remove_self, length, length-append, take, arith,
  if◌then◌else◌, Bool-cases,
}
use dun_tunel.Storage.Files.{
  Dir, FileCall, open_truncated, append, rename, call, calls, concat, tmp_name, removal,
  atomic_write_calls, atomic_write,
}

tmp_name-length : (name : Text) → length (tmp_name name) ≡ 5 + length name
unfolding tmp_name
tmp_name-length name = omega (arith, length-append name (text ".tmp"))

-- A file and its temporary file are two.
tmp_name-other : (name : Text) → text_eq (tmp_name name) name ≡ false
tmp_name-other name = elim (Bool-cases (text_eq (tmp_name name) name)) [
  | inl y ↦
      let same : length (tmp_name name) ≡ length name =
        ap length ((text_eq_iff (tmp_name name) name).0 y) in
      absurd (omega (arith, same, tmp_name-length name))
  | inr n ↦ n
]

name-other : (name : Text) → text_eq name (tmp_name name) ≡ false
name-other name = elim (Bool-cases (text_eq name (tmp_name name))) [
  | inl y ↦
      let same : length name ≡ length (tmp_name name) =
        ap length ((text_eq_iff name (tmp_name name)).0 y) in
      absurd (omega (arith, same, tmp_name-length name))
  | inr n ↦ n
]

append_assoc : (s t u : Text) → (s ++ t) ++ u ≡ s ++ (t ++ u)
append_assoc [] t u = refl
append_assoc (c ∷ s) t u = ap (λ v. c ∷ v) (append_assoc s t u)

append-nil : (s : Text) → s ++ [] ≡ s
append-nil [] = refl
append-nil (c ∷ s) = ap (λ v. c ∷ v) (append-nil s)

-- What stands under the name: the old contents, nothing, or the new.
abbrev pub OldOrNoneOrNew : Option Text → Text → Option Text → Type 0
OldOrNoneOrNew old new o = (o ≡ old) ⊎ ((o ≡ none) ⊎ (o ≡ some new))

renew :
    {old o : Option Text} {new other : Text}
    → new ≡ other
    → OldOrNoneOrNew old new o
    → OldOrNoneOrNew old other o
renew e (inl h) = inl h
renew e (inr (inl h)) = inr (inl h)
renew e (inr (inr h)) = inr (inr (h ∙ ap some e))

module _ (name : Text) (old : Option Text) where
  -- While the temporary file is written.
  Writing : Text → Dir → Type 0
  Writing t d = (lookup (tmp_name name) d ≡ some t) × (lookup name d ≡ old)

  append-Writing :
      (t piece : Text) (d : Dir)
      → Writing t d
      → Writing (t ++ piece) (call (append (tmp_name name) piece) d)
  unfolding call Writing
  append-Writing t piece d (h, g) = (
    rw h (lookup-insert_self (tmp_name name) (t ++ piece) d),
    lookup-insert (tmp_name name) name _ d ∙ rw (tmp_name-other name) g,
  )

  renamed :
      (t : Text) (d : Dir)
      → lookup (tmp_name name) d ≡ some t
      → lookup name (call (rename (tmp_name name) name) d) ≡ some t
  unfolding call
  renamed t d h = rw h (lookup-insert_self name t (remove (tmp_name name) d))

  removed :
      (t : Text) (d : Dir)
      → Writing t d
      → (lookup (tmp_name name) (remove name d) ≡ some t) × (lookup name (remove name d) ≡ none)
  unfolding Writing
  removed t d (h, g) =
      (lookup-remove name (tmp_name name) d ∙ rw (name-other name) h, lookup-remove_self name d)

module _ (name : Text) where
  finish-cut :
      (old : Option Text) (n : ℕ) (t : Text) (d : Dir)
      → Writing name old t d
      → OldOrNoneOrNew old t
          (lookup name (calls (take n (removal name old ++ rename (tmp_name name) name ∷ [])) d))
  unfolding calls call Writing
  finish-cut none zero t d (h, g) = inl g
  finish-cut none (suc zero) t d (h, g) = inr (inr (renamed name none t d h))
  finish-cut none (suc (suc n)) t d (h, g) = inr (inr (renamed name none t d h))
  finish-cut (some o) zero t d (h, g) = inl g
  finish-cut (some o) (suc zero) t d w = inr (inl (removed name (some o) t d w).1)
  finish-cut (some o) (suc (suc zero)) t d w =
      inr (inr (renamed name (some o) t (remove name d) (removed name (some o) t d w).0))
  finish-cut (some o) (suc (suc (suc n))) t d w =
      inr (inr (renamed name (some o) t (remove name d) (removed name (some o) t d w).0))

  write-cut :
      (old : Option Text) (pieces : List Text) (n : ℕ) (t : Text) (d : Dir)
      → Writing name old t d
      → OldOrNoneOrNew old (t ++ concat pieces) (
          lookup name (
            calls
              (take n (
                map (append (tmp_name name)) pieces
                ++ (removal name old ++ rename (tmp_name name) name ∷ [])))
              d))
  unfolding calls concat Writing
  write-cut old [] n t d w = renew (sym (append-nil t)) (finish-cut old n t d w)
  write-cut old (piece ∷ pieces) zero t d w = inl w.1
  write-cut old (piece ∷ pieces) (suc n) t d w = renew (append_assoc t piece (concat pieces)) (
      write-cut old pieces n (t ++ piece) (call (append (tmp_name name) piece) d)
        (append-Writing name old t piece d w))

  opened : (d : Dir) → Writing name (lookup name d) [] (call (open_truncated (tmp_name name)) d)
  unfolding call Writing
  opened d = (
    lookup-insert_self (tmp_name name) [] d,
    lookup-insert (tmp_name name) name [] d ∙ rw (tmp_name-other name) refl,
  )

  -- A write that is cut short after any number of its calls, the writes of pieces of any length among
  -- them, leaves the file as it was, or gone, or with the new contents whole.
  pub atomic_write-cut :
      (pieces : List Text) (n : ℕ) (d : Dir)
      → OldOrNoneOrNew
          (lookup name d)
          (concat pieces)
          (lookup name (calls (take n (atomic_write_calls name pieces d)) d))
  unfolding atomic_write_calls calls
  atomic_write-cut pieces zero d = inl refl
  atomic_write-cut pieces (suc n) d =
      write-cut (lookup name d) pieces n [] (call (open_truncated (tmp_name name)) d) (opened d)

  calls-append : (xs ys : List FileCall) (d : Dir) → calls (xs ++ ys) d ≡ calls ys (calls xs d)
  unfolding calls
  calls-append [] ys d = refl
  calls-append (x ∷ xs) ys d = calls-append xs ys (call x d)

  appended :
      (pieces : List Text) (t : Text) (d : Dir)
      → lookup (tmp_name name) d ≡ some t
      → lookup (tmp_name name) (calls (map (append (tmp_name name)) pieces) d)
        ≡ some (t ++ concat pieces)
  unfolding calls call concat
  appended [] t d h = h ∙ ap some (sym (append-nil t))
  appended (piece ∷ pieces) t d h =
      appended pieces (t ++ piece) (call (append (tmp_name name) piece) d)
        (rw h (lookup-insert_self (tmp_name name) (t ++ piece) d))
      ∙ ap some (append_assoc t piece (concat pieces))

  appended-other :
      (k : Text) (pieces : List Text) (d : Dir)
      → text_eq (tmp_name name) k ≡ false
      → lookup k (calls (map (append (tmp_name name)) pieces) d) ≡ lookup k d
  unfolding calls call
  appended-other k [] d h = refl
  appended-other k (piece ∷ pieces) d h =
      appended-other k pieces (call (append (tmp_name name) piece) d) h
      ∙ lookup-insert (tmp_name name) k _ d
      ∙ rw h refl

  renamed-lookup :
      (k t : Text) (d : Dir)
      → lookup (tmp_name name) d ≡ some t
      → text_eq (tmp_name name) k ≡ false
      → lookup k (call (rename (tmp_name name) name) d)
        ≡ (if text_eq name k then some t else lookup k d)
  unfolding call
  renamed-lookup k t d h o = rw h (
      lookup-insert name k t (remove (tmp_name name) d)
      ∙ ap (λ r. if text_eq name k then some t else r)
          (lookup-remove (tmp_name name) k d ∙ rw o refl))

  finished :
      (old : Option Text) (k t : Text) (d : Dir)
      → lookup (tmp_name name) d ≡ some t
      → text_eq (tmp_name name) k ≡ false
      → lookup k (calls (removal name old ++ rename (tmp_name name) name ∷ []) d)
        ≡ (if text_eq name k then some t else lookup k d)
  unfolding calls call
  finished none k t d h o = renamed-lookup k t d h o
  finished (some x) k t d h o =
      renamed-lookup k t (remove name d)
        (lookup-remove name (tmp_name name) d ∙ rw (name-other name) h) o
      ∙ ground (arith, lookup-remove name k d)

  -- A write that runs to its end leaves the new contents under the name, and every other file but its
  -- own temporary one as it was.
  pub atomic_write-lookup :
      (k : Text) (pieces : List Text) (d : Dir)
      → text_eq (tmp_name name) k ≡ false
      → lookup k (atomic_write name pieces d)
        ≡ (if text_eq name k then some (concat pieces) else lookup k d)
  unfolding atomic_write atomic_write_calls calls call
  atomic_write-lookup k pieces d o =
      let e = insert (tmp_name name) [] d in
      let f = calls (map (append (tmp_name name)) pieces) e in
      ap (lookup k) (
        calls-append (map (append (tmp_name name)) pieces)
          (removal name (lookup name d) ++ rename (tmp_name name) name ∷ []) e)
      ∙ finished (lookup name d) k (concat pieces) f
          (appended pieces [] e (lookup-insert_self (tmp_name name) [] d)) o
      ∙ ap (λ r. if text_eq name k then some (concat pieces) else r)
          (appended-other k pieces e o ∙ lookup-insert (tmp_name name) k [] d ∙ rw o refl)
