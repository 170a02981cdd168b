-- ===== src/Rathole/PortAllocator/Sets.antt =====
-- Laws of the ascending lists that stand for `BTreeSet<u16>`.
use dun_tunel.Prelude.{
  ℕ, zero, suc, ◌+◌, ◌≤◌, ◌<◌, ◌≡◌, refl, List, [], ◌∷◌, Bool, true, false, ◌||◌, ◌&&◌, arith, ltb,
  leb, ◌==◌, if◌then◌else◌, length,
}
use dun_tunel.Rathole.PortAllocator.{insert_port, remove_port, count_up}

unfoldable pub has : ℕ → List ℕ → Bool
has p [] = false
has p (q ∷ qs) = (q == p) || has p qs

-- Ascending, and from `lo` on.
abbrev pub Ascending : ℕ → List ℕ → Type 0
Ascending lo [] = Unit {0}
Ascending lo (q ∷ qs) = (lo ≤ q) × Ascending (q + 1) qs

Ascending-weaken : (lo lo' : ℕ) (ps : List ℕ) → lo ≤ lo' → Ascending lo' ps → Ascending lo ps
Ascending-weaken lo lo' [] h a = tt
Ascending-weaken lo lo' (q ∷ qs) h a = (omega arith, a.1)

pub insert_port-Ascending :
    (lo p : ℕ) (ps : List ℕ) → lo ≤ p → Ascending lo ps → Ascending lo (insert_port p ps)
unfolding insert_port
insert_port-Ascending lo p [] h a = (h, tt)
insert_port-Ascending lo p (q ∷ qs) h a = ground (arith, insert_port-Ascending (q + 1) p qs)

pub remove_port-Ascending :
    (lo p : ℕ) (ps : List ℕ) → Ascending lo ps → Ascending lo (remove_port p ps)
unfolding remove_port
remove_port-Ascending lo p [] a = tt
remove_port-Ascending lo p (q ∷ qs) a =
    ground (arith, remove_port-Ascending (q + 1) p qs, Ascending-weaken lo (q + 1) qs)

pub has-below : (lo p : ℕ) (ps : List ℕ) → Ascending lo ps → p < lo → has p ps ≡ false
unfolding has
has-below lo p [] a h = refl
has-below lo p (q ∷ qs) a h = ground (arith, has-below (q + 1) p qs)

pub has-insert_port : (p q : ℕ) (ps : List ℕ) → has q (insert_port p ps) ≡ ((p == q) || has q ps)
unfolding has insert_port
has-insert_port p q [] = refl
has-insert_port p q (r ∷ rs) = ground (arith, has-insert_port p q rs)

pub has-remove_port :
    (lo p q : ℕ) (ps : List ℕ)
    → Ascending lo ps
    → has q (remove_port p ps) ≡ (if p == q then false else has q ps)
unfolding has remove_port
has-remove_port lo p q [] a = ground arith
has-remove_port lo p q (r ∷ rs) a =
    ground (arith, has-remove_port (r + 1) p q rs, has-below (r + 1) q rs)

pub length-insert_port :
    (lo p : ℕ) (ps : List ℕ)
    → Ascending lo ps
    → length (insert_port p ps) ≡ (if has p ps then length ps else suc (length ps))
unfolding has insert_port
length-insert_port lo p [] a = refl
length-insert_port lo p (q ∷ qs) a =
    ground (arith, length-insert_port (q + 1) p qs, has-below (q + 1) p qs)

pub length-remove_port :
    (p : ℕ) (ps : List ℕ) → length (remove_port p ps) + (if has p ps then 1 else 0) ≡ length ps
unfolding has remove_port
length-remove_port p [] = omega arith
length-remove_port p (q ∷ qs) = ground (arith, length-remove_port p qs)

pub has-head : (p : ℕ) (ps : List ℕ) → has p (p ∷ ps) ≡ true
unfolding has
has-head p ps = ground arith

pub has-nil : (p : ℕ) → has p [] ≡ false
unfolding has
has-nil p = refl

pub count_up-Ascending : (lo n : ℕ) → Ascending lo (count_up lo n)
unfolding count_up
count_up-Ascending lo zero = tt
count_up-Ascending lo (suc n) = (omega arith, count_up-Ascending (lo + 1) n)

pub has-count_up : (lo n p : ℕ) → has p (count_up lo n) ≡ (leb lo p && ltb p (lo + n))
unfolding has count_up
has-count_up lo zero p = ground arith
has-count_up lo (suc n) p = ground (arith, has-count_up (lo + 1) n p)

pub length-count_up : (lo n : ℕ) → length (count_up lo n) ≡ n
unfolding count_up
length-count_up lo zero = refl
length-count_up lo (suc n) = omega (arith, length-count_up (lo + 1) n)
