-- ===== src/Rathole/PortAllocator/Leases.antt =====
-- The allocator together with the ports that its callers hold, over any sequence of calls.
use dun_tunel.Prelude.{
  ℕ, ◌+◌, ◌≤◌, ◌≡◌, refl, List, [], ◌∷◌, true, false, ◌&&◌, not, arith, length, inl, inr, ◌↔◌, ◌⊎◌,
  ◌==◌,
}
use dun_tunel.Shared.Errors.{EdgeResult, ok, err, port_pool_exhausted, EdgeResult-cases}
use dun_tunel.Rathole.PortAllocator.{
  PortAllocator, port_min, new, allocate, release, in_range, insert_port, remove_port, first_port,
}
use dun_tunel.Rathole.PortAllocator.Sets.{
  has, Ascending, insert_port-Ascending, remove_port-Ascending, has-insert_port, has-remove_port,
  has-below, has-head, has-nil, length-insert_port, length-remove_port, count_up-Ascending,
  has-count_up, length-count_up,
}

pub data Call : Type 0 where
  allocates : Call
  releases : ℕ → Call

-- The pool, and the ports that `allocate` has returned and nobody has released since.
pub record Ledger : Type 0 where
  pub pool : PortAllocator
  pub held : List ℕ

abbrev granted : EdgeResult ℕ → List ℕ → List ℕ
granted (ok p) held = insert_port p held
granted (err e) held = held

unfoldable pub step : Ledger → Call → Ledger
step l allocates =
    let (r, pool) = allocate l.pool in record { pool = pool; held = granted r l.held }
step l (releases p) = record { pool = release p l.pool; held = remove_port p l.held }

unfoldable pub run : Ledger → List Call → Ledger
run l [] = l
run l (c ∷ cs) = run (step l c) cs

abbrev pub opening : Ledger
opening = record { pool = new; held = [] }

-- Every port of the range is free or held and never both, and no other port is either.
pub record IsPartition (l : Ledger) : Type 0 where
  pub free_ascending : Ascending port_min l.pool.free
  pub held_ascending : Ascending port_min l.held
  pub split : (p : ℕ) → has p l.pool.free ≡ (in_range p && not (has p l.held))
  pub held_range : (p : ℕ) → has p l.held ≡ true → in_range p ≡ true
  pub total : length l.pool.free + length l.held ≡ 1000

opening-IsPartition : IsPartition opening
unfolding new in_range
opening-IsPartition = record {
  free_ascending = count_up-Ascending 11000 1000;
  held_ascending = tt;
  split = λ p. rw (has-count_up 11000 1000 p, has-nil p) (ground arith);
  held_range = λ p h. cc (has-nil p);
  total = omega (arith, length-count_up 11000 1000);
}

in_range-ge : (p : ℕ) → in_range p ≡ true → port_min ≤ p
unfolding in_range
in_range-ge p h = ground arith

take_port-IsPartition :
    (l : Ledger) (p : ℕ)
    → IsPartition l
    → has p l.pool.free ≡ true
    → IsPartition
        (record { pool = record { free = remove_port p l.pool.free }; held = insert_port p l.held })
take_port-IsPartition l p v h = record {
  free_ascending = remove_port-Ascending port_min p l.pool.free v.free_ascending;
  held_ascending =
      insert_port-Ascending port_min p l.held (in_range-ge p (ground (arith, v.split p)))
        v.held_ascending;
  split = λ q. ground (
    arith,
    has-remove_port port_min p q l.pool.free v.free_ascending,
    has-insert_port p q l.held,
    v.split q,
  );
  held_range = λ q g. ground (arith, has-insert_port p q l.held, v.held_range q, v.split p);
  total = ground (
    arith,
    length-remove_port p l.pool.free,
    length-insert_port port_min p l.held v.held_ascending,
    v.split p,
    v.total,
  );
}

allocates-IsPartition :
    (l : Ledger) (free : List ℕ)
    → l.pool.free ≡ free
    → IsPartition l
    → IsPartition (step l allocates)
unfolding step allocate
allocates-IsPartition l [] e v = rw (e, allocate) (rw e at v)
allocates-IsPartition l (p ∷ ps) e v =
    rw (e, allocate) (rw e at (take_port-IsPartition l p v (rw e (has-head p ps))))

releases-IsPartition : (l : Ledger) (p : ℕ) → IsPartition l → IsPartition (step l (releases p))
unfolding step release
releases-IsPartition l p v = record {
  free_ascending =
      ground (arith, insert_port-Ascending port_min p l.pool.free, in_range-ge p, v.free_ascending);
  held_ascending = remove_port-Ascending port_min p l.held v.held_ascending;
  split = λ q. ground (
    arith,
    has-insert_port p q l.pool.free,
    has-remove_port port_min p q l.held v.held_ascending,
    v.split q,
    v.held_range q,
  );
  held_range =
      λ q h. ground (arith, has-remove_port port_min p q l.held v.held_ascending, v.held_range q);
  total = ground (
    arith,
    length-insert_port port_min p l.pool.free v.free_ascending,
    length-remove_port p l.held,
    v.split p,
    v.held_range p,
    v.total,
  );
}

pub step-IsPartition : (l : Ledger) (c : Call) → IsPartition l → IsPartition (step l c)
step-IsPartition l allocates v = allocates-IsPartition l l.pool.free refl v
step-IsPartition l (releases p) v = releases-IsPartition l p v

run_from-IsPartition : (l : Ledger) (cs : List Call) → IsPartition l → IsPartition (run l cs)
unfolding run
run_from-IsPartition l [] v = v
run_from-IsPartition l (c ∷ cs) v = run_from-IsPartition (step l c) cs (step-IsPartition l c v)

-- After any calls of `allocate` and `release`, valid or not, from a new allocator: the free ports
-- and the held ports are in ascending order, a port is free exactly when it is in the range and not
-- held, every held port is in the range, and the two make 1000 ports together.
pub run-IsPartition : (cs : List Call) → IsPartition (run opening cs)
run-IsPartition cs = run_from-IsPartition opening cs opening-IsPartition

first_port-least :
    (free : List ℕ) {p : ℕ}
    → Ascending port_min free
    → first_port free ≡ ok p
    → (has p free ≡ true) × ((q : ℕ) → has q free ≡ true → p ≤ q)
unfolding first_port
first_port-least [] a h = cc
first_port-least (r ∷ rs) {p} a h =
    let e : r ≡ p = cc in
    rw (← e) (has-head r rs, λ q g. ground (arith, has-below r q (r ∷ rs) (omega arith, a.1)))

allocate-first_port : (a : PortAllocator) → (allocate a).0 ≡ first_port a.free
unfolding allocate
allocate-first_port a = elim (EdgeResult-cases (first_port a.free)) [
  | inl (p, e) ↦ rw (e, allocate)
  | inr (x, e) ↦ rw (e, allocate)
]

-- After any calls, a port that `allocate` returns lies in the range, is held by nobody, and is the
-- least port of the range that nobody holds.
pub allocate-fresh :
    (cs : List Call) (p : ℕ)
    → (allocate (run opening cs).pool).0 ≡ ok p
    → (in_range p ≡ true)
      × (has p (run opening cs).held ≡ false)
      × ((q : ℕ) → in_range q ≡ true → has q (run opening cs).held ≡ false → p ≤ q)
allocate-fresh cs p h =
    let l = run opening cs in
    let v = run-IsPartition cs in
    let least = first_port-least l.pool.free v.free_ascending (rw allocate-first_port at h) in
    (
      ground (arith, v.split p, least.0),
      ground (arith, v.split p, least.0),
      λ q r f. least.1 q (rw (v.split q, r, f) refl),
    )

first_port-exhausted :
    (free : List ℕ) → (first_port free ≡ err port_pool_exhausted) ↔ (length free ≡ 0)
unfolding first_port
first_port-exhausted [] = (λ _. refl, λ _. refl)
first_port-exhausted (r ∷ rs) = (λ h. cc, λ h. absurd (omega arith))

-- After any calls, `allocate` reports an exhausted pool exactly when 1000 ports are held.
pub allocate-exhausted :
    (cs : List Call)
    → ((allocate (run opening cs).pool).0 ≡ err port_pool_exhausted)
      ↔ (length (run opening cs).held ≡ 1000)
allocate-exhausted cs =
    let l = run opening cs in
    let v = run-IsPartition cs in
    let e = first_port-exhausted l.pool.free in
    rw allocate-first_port (λ h. omega (arith, e.0 h, v.total), λ h. e.1 (omega (arith, v.total)))

-- An allocation takes a port where there is one, and changes nothing where there is none.
pub allocate-takes :
    (free : List ℕ) (a : PortAllocator)
    → a.free ≡ free
    → ((p : ℕ) × ((allocate a).0 ≡ ok p) × (length (allocate a).1.free + 1 ≡ length a.free))
      ⊎ (((allocate a).0 ≡ err port_pool_exhausted) × (length a.free ≡ 0) × ((allocate a).1 ≡ a))
unfolding allocate first_port remove_port
allocate-takes [] a e = inr (rw (e, allocate) (refl, refl, refl))
allocate-takes (p ∷ ps) a e =
    let head : (p == p) ≡ true = ground arith in
    inl (p, rw (e, allocate) refl, rw (e, allocate, head) (omega arith))
