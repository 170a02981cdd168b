-- ===== src/Storage/Files/Distinct.antt =====
-- A directory has one file of a name, and stays so.
use dun_tunel.Prelude.{
  ◌≡◌, refl, subst, Bool-cases, false, List, [], ◌∷◌, Option, none, some, Text, text_eq,
  text_eq_iff, Assoc, lookup, insert, remove, All, All-insert, All-remove, inl, inr, arith,
}
use dun_tunel.Storage.Files.{
  Dir, FileCall, open_truncated, append, remove_file, rename, move_to, call, calls, atomic_write,
  atomic_write_calls,
}

module _ {V : Type 0} where
  abbrev pub Fresh : Text → Assoc V → Type 0
  Fresh k = All (λ e. text_eq k e.0 ≡ false)

  abbrev pub Distinct : Assoc V → Type 0
  Distinct [] = Unit {0}
  Distinct ((k, v) ∷ m) = Fresh k m × Distinct m

  pub lookup-Fresh : (k : Text) (m : Assoc V) → Fresh k m → lookup k m ≡ none
  unfolding lookup
  lookup-Fresh k [] h = refl
  lookup-Fresh k ((j, v) ∷ m) h =
      ground (arith, text_eq_iff k j, text_eq_iff j k, h.0, lookup-Fresh k m h.1)

  pub Distinct-insert : (k : Text) (v : V) (m : Assoc V) → Distinct m → Distinct (insert k v m)
  unfolding insert
  Distinct-insert k v [] h = (tt, tt)
  Distinct-insert k v ((j, w) ∷ m) h = elim (Bool-cases (text_eq j k)) [
    | inl y ↦ rw y (subst (λ i. Fresh i m) ((text_eq_iff j k).0 y) h.0, h.1)
    | inr n ↦ rw n (All-insert (λ e. text_eq j e.0 ≡ false) k v m n h.0, Distinct-insert k v m h.1)
  ]

  pub Distinct-remove : (k : Text) (m : Assoc V) → Distinct m → Distinct (remove k m)
  unfolding remove
  Distinct-remove k [] h = tt
  Distinct-remove k ((j, w) ∷ m) h = elim (Bool-cases (text_eq j k)) [
    | inl y ↦ rw y (Distinct-remove k m h.1)
    | inr n ↦ rw n (All-remove (λ e. text_eq j e.0 ≡ false) k m h.0, Distinct-remove k m h.1)
  ]

Distinct-move_to :
    (from to : Text) (o : Option Text) (d : Dir) → Distinct d → Distinct (move_to from to o d)
Distinct-move_to from to none d h = h
Distinct-move_to from to (some t) d h =
    Distinct-insert to t (remove from d) (Distinct-remove from d h)

Distinct-call : (c : FileCall) (d : Dir) → Distinct d → Distinct (call c d)
unfolding call
Distinct-call (open_truncated name) d h = Distinct-insert name [] d h
Distinct-call (append name piece) d h = Distinct-insert name _ d h
Distinct-call (remove_file name) d h = Distinct-remove name d h
Distinct-call (rename from to) d h = Distinct-move_to from to (lookup from d) d h

pub Distinct-calls : (cs : List FileCall) (d : Dir) → Distinct d → Distinct (calls cs d)
unfolding calls
Distinct-calls [] d h = h
Distinct-calls (c ∷ cs) d h = Distinct-calls cs (call c d) (Distinct-call c d h)

pub Distinct-atomic_write :
    (name : Text) (pieces : List Text) (d : Dir)
    → Distinct d
    → Distinct (atomic_write name pieces d)
unfolding atomic_write
Distinct-atomic_write name pieces d h = Distinct-calls (atomic_write_calls name pieces d) d h
