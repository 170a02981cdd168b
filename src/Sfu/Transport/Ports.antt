-- ===== src/Sfu/Transport/Ports.antt =====
-- The UDP ports that the workers bind.
use dun_tunel.Prelude.{
  ℕ, zero, suc, ◌+◌, ◌≤◌, ◌<◌, ◌≡◌, sym, subst, Bool, true, false, ◌&&◌, ◌||◌, List, [], ◌∷◌, ◌++◌,
  Option, none, some, All, arith, leb, ltb, ◌==◌,
}
use dun_tunel.Shared.Env.{Env}
use dun_tunel.Sfu.Transport.{
  Addresses, RouterListenInfo, ListenInfo, create_webrtc_server_options, lan_infos, mux_port,
  saturating_add_u16, lan_mux_port_offset, server_infos,
}

unfoldable pub ports_of : {IpAddr : Type 0} → List (ListenInfo IpAddr) → List ℕ
ports_of [] = []
ports_of (i ∷ is) = let rest = ports_of is in elim i.port [ none ↦ rest | some p ↦ p ∷ rest ]

-- No port twice.
abbrev pub AreDifferent : List ℕ → Type 0
AreDifferent [] = Unit {0}
AreDifferent (p ∷ ps) = All (λ q. (p == q) ≡ false) ps × AreDifferent ps

-- A port of a worker from `idx` on, of at most 1000.
abbrev from_worker : ℕ → ℕ → ℕ → Bool
from_worker base idx p =
    (leb (base + idx) p && ltb p (base + 1000))
    || (leb (base + 1000 + idx) p && ltb p (base + 2000))

All-weaken : {P Q : ℕ → Type 0} (ps : List ℕ) → ((p : ℕ) → P p → Q p) → All P ps → All Q ps
All-weaken [] f h = tt
All-weaken (p ∷ ps) f h = (f p h.0, All-weaken ps f h.1)

abbrev AreFrom : ℕ → ℕ → List ℕ → Type 0
AreFrom base idx ps = All (λ p. from_worker base idx p ≡ true) ps × AreDifferent ps

later_not_public :
    (base idx p : ℕ) → from_worker base (suc idx) p ≡ true → ((base + idx) == p) ≡ false
later_not_public base idx p h = ground (arith, h)

later_not_lan :
    (base idx p : ℕ)
    → idx < 1000
    → from_worker base (suc idx) p ≡ true
    → ((base + idx + 1000) == p) ≡ false
later_not_lan base idx p g h = ground (arith, g, h)

later-from_worker :
    (base idx p : ℕ) → from_worker base (suc idx) p ≡ true → from_worker base idx p ≡ true
later-from_worker base idx p h = ground (arith, h)

public-from_worker : (base idx : ℕ) → idx < 1000 → from_worker base idx (base + idx) ≡ true
public-from_worker base idx h = ground (arith, h)

lan-from_worker : (base idx : ℕ) → idx < 1000 → from_worker base idx (base + idx + 1000) ≡ true
lan-from_worker base idx h = ground (arith, h)

-- A worker's ports before those of the next ones.
add_public :
    (base idx : ℕ) (ps : List ℕ)
    → idx < 1000
    → AreFrom base (suc idx) ps
    → AreFrom base idx ((base + idx) ∷ ps)
add_public base idx ps h (from, different) = (
  (public-from_worker base idx h, All-weaken ps (later-from_worker base idx) from),
  (All-weaken ps (later_not_public base idx) from, different),
)

add_both :
    (base idx : ℕ) (ps : List ℕ)
    → idx < 1000
    → AreFrom base (suc idx) ps
    → AreFrom base idx ((base + idx) ∷ (base + idx + 1000) ∷ ps)
add_both base idx ps h (from, different) =
    let weak = All-weaken ps (later-from_worker base idx) from in
    (
      (public-from_worker base idx h, (lan-from_worker base idx h, weak)),
      (
        (ground arith, All-weaken ps (later_not_public base idx) from),
        (All-weaken ps (λ p. later_not_lan base idx p h) from, different),
      ),
    )

module _ {IpAddr : Type 0} (addresses : Addresses IpAddr) (listen : RouterListenInfo IpAddr) where
  mux_port-sum :
      (idx : ℕ)
      → idx < 1000
      → listen.rtc_min_port + 2000 ≤ 65536
      → mux_port addresses listen idx ≡ listen.rtc_min_port + idx
  mux_port-sum idx h g = omega (arith, h, g)

  lan_port-sum :
      (idx : ℕ)
      → idx < 1000
      → listen.rtc_min_port + 2000 ≤ 65536
      → saturating_add_u16 (listen.rtc_min_port + idx) lan_mux_port_offset
        ≡ listen.rtc_min_port + idx + 1000
  lan_port-sum idx h g = omega (arith, h, g)

  add_worker :
      (idx : ℕ) (lan : Option IpAddr) (rest : List (ListenInfo IpAddr))
      → idx < 1000
      → listen.rtc_min_port + 2000 ≤ 65536
      → AreFrom listen.rtc_min_port (suc idx) (ports_of rest)
      → AreFrom listen.rtc_min_port idx (
          mux_port addresses listen idx
          ∷ ports_of (lan_infos addresses listen lan (mux_port addresses listen idx) ++ rest))
  unfolding ports_of
  add_worker idx none rest h g r =
      subst (λ p. AreFrom listen.rtc_min_port idx (p ∷ ports_of rest)) (sym (mux_port-sum idx h g))
        (add_public listen.rtc_min_port idx (ports_of rest) h r)
  add_worker idx (some ip) rest h g r =
      subst
        (λ p.
          AreFrom listen.rtc_min_port idx
            (p ∷ saturating_add_u16 p lan_mux_port_offset ∷ ports_of rest))
        (sym (mux_port-sum idx h g))
        (subst
          (λ p. AreFrom listen.rtc_min_port idx ((listen.rtc_min_port + idx) ∷ p ∷ ports_of rest))
          (sym (lan_port-sum idx h g)) (add_both listen.rtc_min_port idx (ports_of rest) h r))

  server_infos-AreFrom :
      (idx left : ℕ)
      → idx + left ≤ 1000
      → listen.rtc_min_port + 2000 ≤ 65536
      → AreFrom listen.rtc_min_port idx (ports_of (server_infos addresses listen idx left))
  unfolding server_infos create_webrtc_server_options ports_of
  server_infos-AreFrom idx zero h g = (tt, tt)
  server_infos-AreFrom idx (suc left) h g =
      add_worker idx listen.lan_announced_ip (server_infos addresses listen (suc idx) left)
        (omega (arith, h)) g (server_infos-AreFrom (suc idx) left (omega (arith, h)) g)

  -- Up to 1000 workers bind different ports, also with a second address, if the first port leaves room
  -- for 2000. They are all above the ports of the plain transports if the first one is.
  pub server_infos-ports :
      (workers : ℕ)
      → workers ≤ 1000
      → listen.rtc_min_port + 2000 ≤ 65536
      → listen.plain_rtp_max_port < listen.rtc_min_port
      → let ports = ports_of (server_infos addresses listen 0 workers) in
        AreDifferent ports × All (λ p. listen.plain_rtp_max_port < p) ports
  server_infos-ports workers h g k =
      let (from, different) = server_infos-AreFrom 0 workers (omega (arith, h)) g in
      (different, All-weaken _ (λ p e. ground (arith, e, k)) from)

module _ {IpAddr : Type 0} (addresses : Addresses IpAddr) (env : Env) where
  abbrev HasDefaults : RouterListenInfo IpAddr → Type 0
  HasDefaults listen =
      (listen.rtc_min_port ≡ 50000)
      × (listen.plain_rtp_min_port ≡ 5000)
      × (listen.plain_rtp_max_port ≡ 9999)
