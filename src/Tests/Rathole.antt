-- ===== src/Tests/Rathole.antt =====
-- The port allocator at concrete calls.
use dun_tunel.Prelude.{◌≡◌, refl, List, [], ◌∷◌}
use dun_tunel.Shared.Errors.{ok}
use dun_tunel.Rathole.PortAllocator.{
  allocate, in_range, remove_port, insert_port, release, count_up, new,
}
use dun_tunel.Rathole.PortAllocator.Leases.{
  Call, allocates, releases, step, run, opening, IsPartition, run-IsPartition,
}

-- Two ports are taken, the first is given back, and a port outside the range too.
abbrev calls : List Call
calls = allocates ∷ allocates ∷ releases 11000 ∷ releases 80 ∷ []

run-IsPartition_example : IsPartition (run opening calls)
run-IsPartition_example = run-IsPartition calls

allocate-calls : (allocate (run opening calls).pool).0 ≡ ok 11000
unfolding allocate run step release in_range insert_port remove_port count_up new
allocate-calls = refl
