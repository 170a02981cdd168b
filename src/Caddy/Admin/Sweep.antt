-- ===== src/Caddy/Admin/Sweep.antt =====
-- The sweep of duplicates, and the arrays of Caddy that it and the other operations change.
use dun_tunel.Prelude.{
  ℕ, zero, suc, ◌<◌, Bool, true, false, ◌≡◌, refl, sym, ap, subst, ◌∙◌, List, [], ◌∷◌, ◌++◌, some,
  Text, length, arith, if◌then◌else◌,
}
use dun_tunel.Prelude.Json.{Json, list, item_list-items}
use dun_tunel.Shared.Errors.{EdgeResult, ok, err}
use dun_tunel.Caddy.Admin.Requests.{
  Target, at_index, Response, Exchange, World, ◌>>=◌, continue_with, pure, is_success, get_of,
  delete_of, attempt,
}
use dun_tunel.Caddy.Admin.Client.{
  has_id, delete_matching, delete_if, sweep_entries, dedup_id_in_array,
}

abbrev pub remove_at : ℕ → List Json → List Json
remove_at i [] = []
remove_at zero (j ∷ js) = js
remove_at (suc i) (j ∷ js) = j ∷ remove_at i js

-- The entries with another id, in their order.
unfoldable pub without_id : Text → List Json → List Json
without_id id [] = []
without_id id (j ∷ js) = let rest = without_id id js in if has_id id j then rest else j ∷ rest

-- Caddy keeps an array at this target, `view` of its state: a GET answers with it, and a DELETE by
-- index takes the entry out.
pub record ArrayAt {S : Type 0} (exchange : Exchange S) (array : Target) (view : S → List Json)
    : Type 0 where
  pub listing : S → Response
  pub listing-success : (s : S) → is_success (listing s) ≡ true
  pub listing-json : (s : S) → (listing s).json ≡ some (list (view s))
  pub get-lists : (s : S) → exchange (get_of array) s ≡ (some (listing s), s)
  pub delete-removes :
      (s : S) (i : ℕ)
      → i < length (view s)
      → view (exchange (delete_of (at_index array i)) s).1 ≡ remove_at i (view s)

pub remove_at-append :
    (xs ys : List Json) (j : Json) → remove_at (length xs) (xs ++ j ∷ ys) ≡ xs ++ ys
remove_at-append [] ys j = refl
remove_at-append (x ∷ xs) ys j = ap (λ l. x ∷ l) (remove_at-append xs ys j)

append_one : (xs ys : List Json) (j : Json) → (xs ++ j ∷ []) ++ ys ≡ xs ++ j ∷ ys
append_one [] ys j = refl
append_one (x ∷ xs) ys j = ap (λ l. x ∷ l) (append_one xs ys j)

length-append_one : (xs : List Json) (j : Json) → length (xs ++ j ∷ []) ≡ suc (length xs)
length-append_one [] j = refl
length-append_one (x ∷ xs) j = ap suc (length-append_one xs j)

pub length-append_more : (xs ys : List Json) (j : Json) → length xs < length (xs ++ j ∷ ys)
length-append_more [] ys j = omega arith
length-append_more (x ∷ xs) ys j = omega (arith, length-append_more xs ys j)

module _ {S : Type 0} (exchange : Exchange S) (array : Target) (view : S → List Json)
    (at : ArrayAt exchange array view) where
  -- The sweep of the entries ends in a world where the array is this.
  Leaves : EdgeResult (Unit {0}) × World S → List Json → Type 0
  Leaves p js = (p.0 ≡ ok tt) × (view p.1.caddy ≡ js)

  delete_if-Leaves :
      (b : Bool) (before after : List Json) (e : Json) (w : World S)
      → view w.caddy ≡ before ++ e ∷ after
      → Leaves
          (delete_if exchange b (at_index array (length before)) w)
          (before ++ (if b then after else e ∷ after))
  unfolding ◌>>=◌ pure attempt Leaves
  delete_if-Leaves false before after e w h = (refl, h)
  delete_if-Leaves true before after e w h =
      let inside : length before < length (view w.caddy) =
        rw h (length-append_more before after e) in
      (
        refl,
        at.delete-removes w.caddy (length before) inside
            ∙ ap (remove_at (length before)) h
            ∙ remove_at-append before after e,
      )

  delete_matching-Leaves :
      (id : Text) (before es : List Json) (w : World S)
      → view w.caddy ≡ before ++ es
      → Leaves (delete_matching exchange array id (length before) es w) (before ++ without_id id es)
  unfolding delete_matching without_id ◌>>=◌ pure Leaves
  delete_matching-Leaves id before [] w h = (refl, h)
  delete_matching-Leaves id before (e ∷ es) w h =
      from (delete_matching exchange array id (suc (length before)) es w) (
        subst
          (λ n. Leaves (delete_matching exchange array id n es w) (before ++ e ∷ without_id id es))
          (length-append_one before e)
          (subst
            (λ js. Leaves (delete_matching exchange array id (length (before ++ e ∷ [])) es w) js)
            (append_one before (without_id id es) e)
            (delete_matching-Leaves id (before ++ e ∷ []) es w (h ∙ sym (append_one before es e)))))
    where
      from :
          (p : EdgeResult (Unit {0}) × World S)
          → Leaves p (before ++ e ∷ without_id id es)
          → Leaves
              (continue_with p
                (λ u. delete_if exchange (has_id id e) (at_index array (length before))))
              (before ++ (if has_id id e then without_id id es else e ∷ without_id id es))
      from (ok u, v) g = delete_if-Leaves (has_id id e) before (without_id id es) e v g.1
      from (err x, v) g = absurd (cc (g.0))

  -- Where Caddy lists an array and deletes by index as it documents, the sweep takes out the entries
  -- with the id, all of them, and leaves the others in their order.
  pub dedup_id_in_array-sweeps :
      (id : Text) (w : World S)
      → view (dedup_id_in_array exchange array id w).1.caddy ≡ without_id id (view w.caddy)
  unfolding dedup_id_in_array ◌>>=◌ attempt Leaves
  dedup_id_in_array-sweeps id w =
      rw (at.get-lists w.caddy, at.listing-success w.caddy, at.listing-json w.caddy)
        (subst
          (λ o. view (sweep_entries exchange array id o w).1.caddy ≡ without_id id (view w.caddy))
          (ap some (sym (item_list-items (view w.caddy))))
          (delete_matching-Leaves id [] (view w.caddy) w refl).1)
