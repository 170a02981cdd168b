-- ===== src/Caddy/Admin/Stale.antt =====
-- What the removal of a route does to the entries that Caddy keeps under its id.
use dun_tunel.Prelude.{
  ℕ, suc, Bool, ◌+◌, ◌<◌, true, false, ◌≡◌, refl, ap, ◌∙◌, List, [], ◌∷◌, ◌++◌, Option, none, some,
  Text, length, arith, All,
}
use dun_tunel.Prelude.Json.{Json, item_list-items}
use dun_tunel.Shared.Errors.{EdgeError, ok}
use dun_tunel.Caddy.Admin.Requests.{
  server_routes, at_index, Response, continue_with, failed, is_success, delete_of, Exchange, World,
  ◌>>=◌, require, some_or, attempt, send,
}
use dun_tunel.Caddy.Admin.Client.{
  has_id, last_with_id, first_server_name, delete_entry, delete_stale,
}
use dun_tunel.Caddy.Admin.Sweep.{ArrayAt, remove_at, remove_at-append, length-append_more}

abbrev pub NoId : Text → List Json → Type 0
NoId id = All (λ j. has_id id j ≡ false)

last_with_id-none : (id : Text) (i : ℕ) (js : List Json) → NoId id js → last_with_id id i js ≡ none
unfolding last_with_id
last_with_id-none id i [] h = refl
last_with_id-none id i (j ∷ js) h = rw (last_with_id-none id (suc i) js h.1, h.0) refl

last_with_id-append :
    (id : Text) (i : ℕ) (before after : List Json) (j : Json)
    → has_id id j ≡ true
    → NoId id after
    → last_with_id id i (before ++ j ∷ after) ≡ some (length before + i)
unfolding last_with_id
last_with_id-append id i [] after j y n =
    rw (last_with_id-none id (suc i) after n, y) (ap some (omega arith))
last_with_id-append id i (b ∷ before) after j y n =
    rw (last_with_id-append id (suc i) before after j y n) (ap some (omega arith))

require-world : {S : Type 0} (b : Bool) (e : EdgeError) (w : World S) → (require b e w).1 ≡ w
unfolding require
require-world true e w = refl
require-world false e w = refl

module _ {S : Type 0} (exchange : Exchange S) (name : Text) (view : S → List Json)
    (at : ArrayAt exchange (server_routes name) view) where
  delete_entry-caddy :
      (i : ℕ) (w : World S)
      → (delete_entry exchange name (some i) w).1.caddy
        ≡ (exchange (delete_of (at_index (server_routes name) i)) w.caddy).1
  unfolding send attempt ◌>>=◌ some_or
  delete_entry-caddy i w = from (exchange (delete_of (at_index (server_routes name) i)) w.caddy)
    where
      from :
          (p : Option Response × S)
          → (continue_with
              (some_or {S = S} p.0
                (failed "caddy delete absolute")
                (record { caddy = p.1; routes = w.routes }))
              (λ r. require (is_success r) (failed "caddy delete absolute failed"))).1.caddy
            ≡ p.1
      from (none, s) = refl
      from (some r, s) =
          ap (λ v. v.caddy)
            (require-world (is_success r) (failed "caddy delete absolute failed")
              (record { caddy = s; routes = w.routes }))

  delete_stale-entry :
      (id : Text) (w : World S) {i : Option ℕ}
      → first_server_name exchange w ≡ (ok name, w)
      → last_with_id id 0 (view w.caddy) ≡ i
      → delete_stale exchange id w ≡ delete_entry exchange name i w
  unfolding send attempt ◌>>=◌ some_or
  delete_stale-entry id w {i} first last =
      rw
        (first, at.get-lists w.caddy, at.listing-json w.caddy, item_list-items (view w.caddy), last)
        refl

  -- Let Caddy list and delete routes as documented. Where it still has entries of a removed route,
  -- one goes, the last. Those before it stay, also those with the same id.
  pub delete_stale-last :
      (id : Text) (before after : List Json) (j : Json) (w : World S)
      → first_server_name exchange w ≡ (ok name, w)
      → view w.caddy ≡ before ++ j ∷ after
      → has_id id j ≡ true
      → NoId id after
      → view (delete_stale exchange id w).1.caddy ≡ before ++ after
  delete_stale-last id before after j w first h y n =
      let last : last_with_id id 0 (view w.caddy) ≡ some (length before) =
        ap (last_with_id id 0) h
        ∙ last_with_id-append id 0 before after j y n
        ∙ ap some (omega arith) in
      let inside : length before < length (view w.caddy) =
        rw h (length-append_more before after j) in
      ap (λ p. view p.1.caddy) (delete_stale-entry id w first last)
      ∙ ap view (delete_entry-caddy (length before) w)
      ∙ at.delete-removes w.caddy (length before) inside
      ∙ ap (remove_at (length before)) h
      ∙ remove_at-append before after j
