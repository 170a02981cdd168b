-- ===== src/Rathole/PortAllocator.antt =====
-- crates/edge-rathole-bridge/src/port_allocator.rs. The `BTreeSet<u16>` of free ports is the list of
-- its elements in ascending order, which is the order in which its iterator yields them.
pub mod Sets
pub mod Leases
use dun_tunel.Prelude.{
  ℕ, zero, suc, ◌+◌, ◌-◌, List, [], ◌∷◌, Bool, ◌&&◌, Option, none, some, ltb, leb, ◌==◌,
  if◌then◌else◌,
}
use dun_tunel.Shared.Errors.{EdgeResult, ok, err, port_pool_exhausted}

abbrev pub port_min : ℕ
port_min = 11000

abbrev pub port_max : ℕ
port_max = 11999

-- The `n` numbers from `lo` on.
unfoldable pub count_up : ℕ → ℕ → List ℕ
count_up lo zero = []
count_up lo (suc n) = lo ∷ count_up (lo + 1) n

pub record PortAllocator : Type 0 where
  pub free : List ℕ

unfoldable pub new : PortAllocator
new = record { free = count_up port_min (port_max - port_min + 1) }

-- `BTreeSet::insert`.
unfoldable pub insert_port : ℕ → List ℕ → List ℕ
insert_port p [] = p ∷ []
insert_port p (q ∷ qs) =
    if ltb p q then p ∷ q ∷ qs else if p == q then q ∷ qs else q ∷ insert_port p qs

-- `BTreeSet::remove`.
unfoldable pub remove_port : ℕ → List ℕ → List ℕ
remove_port p [] = []
remove_port p (q ∷ qs) = if q == p then qs else q ∷ remove_port p qs

pub first_port : List ℕ → EdgeResult ℕ
first_port [] = err port_pool_exhausted
first_port (p ∷ ps) = ok p

-- The result, and the allocator after the call.
taken : EdgeResult ℕ → PortAllocator → EdgeResult ℕ × PortAllocator
taken (ok p) a = (ok p, record { free = remove_port p a.free })
taken (err e) a = (err e, a)

unfoldable pub allocate : PortAllocator → EdgeResult ℕ × PortAllocator
unfolding taken first_port
allocate a = taken (first_port a.free) a

unfoldable pub in_range : ℕ → Bool
in_range p = leb port_min p && leb p port_max

unfoldable pub release : ℕ → PortAllocator → PortAllocator
release p a = if in_range p then record { free = insert_port p a.free } else a
