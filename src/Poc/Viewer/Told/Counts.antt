-- ===== src/Poc/Viewer/Told/Counts.antt =====
-- Lists of messages and tasks: how often something stands in them.
use dun_tunel.Prelude.{
  ℕ, zero, suc, ◌+◌, ◌≤◌, ◌≡◌, subst, List, [], ◌∷◌, ◌++◌, some, All, get_elem?, arith,
}
use dun_tunel.Poc.Viewer.Run.{remove_at}

-- How many times something holds of the elements.
module _ {A : Type 0} (count : A → ℕ) where
  unfoldable pub total : List A → ℕ
  total [] = 0
  total (x ∷ xs) = count x + total xs

  pub total-append : (xs ys : List A) → total (xs ++ ys) ≡ total xs + total ys
  unfolding total
  total-append [] ys = omega arith
  total-append (x ∷ xs) ys = omega (arith, total-append xs ys)

  pub total-remove_at : (i : ℕ) (xs : List A) → total (remove_at i xs) ≤ total xs
  unfolding total
  total-remove_at i [] = omega arith
  total-remove_at zero (x ∷ xs) = omega arith
  total-remove_at (suc i) (x ∷ xs) = omega (arith, total-remove_at i xs)

  pub total-taken :
      (i : ℕ) (xs : List A) (x : A)
      → get_elem? xs i ≡ some x
      → count x + total (remove_at i xs) ≡ total xs
  unfolding total
  total-taken i [] x h = cc
  total-taken zero (y ∷ xs) x h = let same : y ≡ x = cc in rw same (omega arith)
  total-taken (suc i) (y ∷ xs) x h = omega (arith, total-taken i xs x h)

pub All-append :
    {A : Type 0} (P : A → Type 0) (xs ys : List A) → All P xs → All P ys → All P (xs ++ ys)
All-append P [] ys h g = g
All-append P (x ∷ xs) ys h g = (h.0, All-append P xs ys h.1 g)

pub All-remove_at :
    {A : Type 0} (P : A → Type 0) (i : ℕ) (xs : List A) → All P xs → All P (remove_at i xs)
All-remove_at P i [] h = tt
All-remove_at P zero (x ∷ xs) h = h.1
All-remove_at P (suc i) (x ∷ xs) h = (h.0, All-remove_at P i xs h.1)

pub All-get_elem? :
    {A : Type 0} (P : A → Type 0) (i : ℕ) (xs : List A) (x : A)
    → All P xs
    → get_elem? xs i ≡ some x
    → P x
All-get_elem? P i [] x h e = absurd cc
All-get_elem? P zero (y ∷ xs) x h e = let same : y ≡ x = cc in subst P same h.0
All-get_elem? P (suc i) (y ∷ xs) x h e = All-get_elem? P i xs x h.1 e
