-- ===== src/Bandwidth/Reporter/Rounds.antt =====
-- What a round of the reporter forgets.
use dun_tunel.Prelude.{
  ℕ, ◌≡◌, refl, sym, ap, ◌∙◌, map, Option, text_eq, Bool-cases, inl, inr, Bool, true, false, not,
  ◌&&◌, List, [], ◌∷◌, none, Text, text_eq_iff, member, lookup, remove, lookup-remove, keys, Assoc,
  if◌then◌else◌, arith,
}
use dun_tunel.Storage.Stores.{session_path}
use dun_tunel.Storage.Stores.Sequences.{session_path_idem}
use dun_tunel.Bandwidth.Reporter.{
  Reporter, Reading, report_all, ended, forget, tick, restored, start,
}

member-ended :
    (active sids : List Text) (sid : Text)
    → member sid (ended active sids) ≡ (member sid sids && not (member sid active))
unfolding ended member
member-ended active [] sid = refl
member-ended active (s ∷ sids) sid = ground (arith, member-ended active sids sid, text_eq_iff s sid)

forget-state :
    (removes : Text → Bool) (sids : List Text) (r : Reporter) (sid : Text)
    → lookup sid (forget removes sids r).state
      ≡ (if member sid sids then none else lookup sid r.state)
unfolding forget member
forget-state removes [] r sid = refl
forget-state removes (s ∷ sids) r sid =
    let shrunk = record r {
      state = remove s r.state;
      store = if removes s then remove (session_path s) r.store else r.store;
    } in
    ground (arith, forget-state removes sids shrunk sid, lookup-remove s sid r.state)

forget-store :
    (sids : List Text) (r : Reporter) (name : Text)
    → lookup name (forget (λ _. true) sids r).store
      ≡ (if member name (map session_path sids) then none else lookup name r.store)
unfolding forget member
forget-store [] r name = refl
forget-store (s ∷ sids) r name =
    let shrunk = record r { state = remove s r.state; store = remove (session_path s) r.store } in
    ground (arith, forget-store sids shrunk name, lookup-remove (session_path s) name r.store)

member-keys {ℓ} :
    {V : Type ℓ} (m : Assoc V) (sid : Text) → member sid (keys m) ≡ false → lookup sid m ≡ none
unfolding member lookup
member-keys [] sid h = refl
member-keys ((k, v) ∷ m) sid h = ground (arith, member-keys m sid)

keys-restored : (now : ℕ) (store : Assoc ℕ) → keys (restored now store) ≡ keys store
unfolding restored
keys-restored now [] = refl
keys-restored now ((k, n) ∷ store) = cc (keys-restored now store)

-- After a round, a session that is not among the active ones is not recorded, whatever the round's
-- reports find and whether or not its file could be removed.
pub tick-forgets :
    (readings : Text → Reading) (removes : Text → Bool) (active : List Text) (r : Reporter)
    (sid : Text)
    → member sid active ≡ false
    → lookup sid (tick readings removes active r).state ≡ none
unfolding tick
tick-forgets readings removes active r sid h =
    let r' = report_all readings active r in
    ground (
      arith,
      h,
      forget-state removes (ended active (keys r'.state)) r' sid,
      member-ended active (keys r'.state) sid,
      member-keys r'.state sid,
    )

ended-nil : (sids : List Text) → ended [] sids ≡ sids
unfolding ended member
ended-nil [] = refl
ended-nil (s ∷ sids) = ap (λ rest. s ∷ rest) (ended-nil sids)

-- A name that is no session's file is the file of none.
no_file :
    (ids : List Text) (name : Text)
    → text_eq (session_path name) name ≡ false
    → member name (map session_path ids) ≡ false
unfolding member
no_file [] name h = refl
no_file (k ∷ ids) name h = elim (Bool-cases (text_eq (session_path k) name)) [
  | inl y ↦
      let same : session_path k ≡ name = (text_eq_iff (session_path k) name).0 y in
      let kept : session_path name ≡ name =
        ap session_path (sym same) ∙ session_path_idem k ∙ same in
      absurd (cc (h, (text_eq_iff (session_path name) name).1 kept))
  | inr n ↦ rw n (no_file ids name h)
]

own_file :
    (ids : List Text) (name : Text)
    → session_path name ≡ name
    → member name ids ≡ true
    → member name (map session_path ids) ≡ true
unfolding member
own_file [] name e h = h
own_file (k ∷ ids) name e h = elim (Bool-cases (text_eq k name)) [
  | inl y ↦
      let same : k ≡ name = (text_eq_iff k name).0 y in
      let hit : text_eq (session_path k) name ≡ true =
        (text_eq_iff (session_path k) name).1 (ap session_path same ∙ e) in
      rw hit refl
  | inr n ↦ elim (Bool-cases (text_eq (session_path k) name)) [
    | inl y ↦ rw y refl
    | inr m ↦ rw m (own_file ids name e (rw n at h))
  ]
]

if-none {ℓ} : {V : Type ℓ} (b : Bool) (o : Option V) → o ≡ none → (if b then none else o) ≡ none
if-none true o h = refl
if-none false o h = h

removed-files :
    (store : Assoc ℕ) (name : Text)
    → (if member name (map session_path (keys store)) then none else lookup name store)
      ≡ (if text_eq (session_path name) name then none else lookup name store)
removed-files store name = elim (Bool-cases (text_eq (session_path name) name)) [
  | inr n ↦ rw (n, no_file (keys store) name n) refl
  | inl y ↦ rw y (elim (Bool-cases (member name (keys store))) [
    | inl m ↦ rw (own_file (keys store) name ((text_eq_iff (session_path name) name).0 y) m) refl
    | inr n ↦
        if-none (member name (map session_path (keys store))) (lookup name store)
          (member-keys store name n)
  ])
]

-- A first round that finds no active session, and can remove files, removes each sequence file that
-- the start found whose name a session's file can have, which is one of safe characters alone. It
-- leaves every other file, such as a temporary one.
pub tick-start :
    (readings : Text → Reading) (now : ℕ) (store : Assoc ℕ) (name : Text)
    → lookup name (tick readings (λ _. true) [] (start now store)).store
      ≡ (if text_eq (session_path name) name then none else lookup name store)
unfolding tick start report_all
tick-start readings now store name =
    forget-store (ended [] (keys (restored now store))) (start now store) name
    ∙ rw (ended-nil (keys (restored now store)), keys-restored now store) (removed-files store name)
