-- ===== src/Sfu/InputBridge/Registry.antt =====
-- The bridges of the process by their sessions: `registry`, `connect` and `shutdown` of
-- crates/edge-sfu/src/neko_input_bridge.rs. A bridge is its socket; `opened` is the new socket, where
-- Neko accepts one.
use dun_tunel.Prelude.{
  ℕ, ◌≡◌, refl, List, [], ◌∷◌, Option, none, some, Text, Assoc, lookup, insert, remove,
  lookup-insert, lookup-insert_self, lookup-remove_self, text_eq_iff, ◌∙◌, arith,
}

abbrev pub Registry : Type 0
Registry = Assoc ℕ

abbrev pub connect_with : Text → Option ℕ → Option ℕ → Registry → Option ℕ × Registry
connect_with session_id (some existing) opened reg = (some existing, reg)
connect_with session_id none none reg = (none, reg)
connect_with session_id none (some bridge) reg = (some bridge, insert session_id bridge reg)

unfoldable pub connect : Text → Option ℕ → Registry → Option ℕ × Registry
unfolding lookup insert
connect session_id opened reg = connect_with session_id (lookup session_id reg) opened reg

unfoldable pub shutdown : Text → Registry → Registry
unfolding remove
shutdown session_id reg = remove session_id reg

-- One call after another, each with its session and what Neko does.
unfoldable pub connects : List (Text × Option ℕ) → Registry → Registry
unfolding connect
connects [] reg = reg
connects ((session_id, opened) ∷ calls) reg = connects calls (connect session_id opened reg).1

connect_with-lookup :
    (session_id other : Text) (opened : Option ℕ) (reg : Registry) (found : Option ℕ) {bridge : ℕ}
    → lookup other reg ≡ found
    → lookup session_id reg ≡ some bridge
    → lookup session_id (connect_with other found opened reg).1 ≡ some bridge
connect_with-lookup session_id other opened reg (some existing) e h = h
connect_with-lookup session_id other none reg none e h = h
connect_with-lookup session_id other (some b) reg none e h =
    ground (arith, lookup-insert other session_id b reg, text_eq_iff other session_id, e, h)

connects-lookup :
    (session_id : Text) (calls : List (Text × Option ℕ)) (reg : Registry) {bridge : ℕ}
    → lookup session_id reg ≡ some bridge
    → lookup session_id (connects calls reg) ≡ some bridge
unfolding connects connect
connects-lookup session_id [] reg h = h
connects-lookup session_id ((other, opened) ∷ calls) reg h =
    connects-lookup session_id calls (connect other opened reg).1
      (connect_with-lookup session_id other opened reg (lookup other reg) refl h)

connect_with-kept :
    (session_id : Text) (found opened : Option ℕ) (reg : Registry) {bridge : ℕ}
    → lookup session_id reg ≡ found
    → (connect_with session_id found opened reg).0 ≡ some bridge
    → lookup session_id (connect_with session_id found opened reg).1 ≡ some bridge
connect_with-kept session_id (some existing) opened reg e h = e ∙ h
connect_with-kept session_id none none reg e h = cc
connect_with-kept session_id none (some b) reg e h = lookup-insert_self session_id b reg ∙ h

-- From the first bridge of a session on, every `connect` for it returns that bridge and opens none,
-- whatever other calls of `connect` come between.
pub connect-reuses :
    (session_id : Text) (opened again : Option ℕ) (calls : List (Text × Option ℕ)) (reg : Registry)
    {bridge : ℕ}
    → (connect session_id opened reg).0 ≡ some bridge
    → let later = connects calls (connect session_id opened reg).1 in
      connect session_id again later ≡ (some bridge, later)
unfolding connect
connect-reuses session_id opened again calls reg h =
    let later = connects calls (connect session_id opened reg).1 in
    rw
      (connects-lookup session_id calls (connect session_id opened reg).1
        (connect_with-kept session_id (lookup session_id reg) opened reg refl h))
      refl

-- After a `shutdown`, the next `connect` of the session returns what Neko opens for it.
pub connect-shutdown :
    (session_id : Text) (opened : Option ℕ) (reg : Registry)
    → (connect session_id opened (shutdown session_id reg)).0 ≡ opened
unfolding connect shutdown
connect-shutdown session_id none reg = rw (lookup-remove_self session_id reg) refl
connect-shutdown session_id (some b) reg = rw (lookup-remove_self session_id reg) refl
