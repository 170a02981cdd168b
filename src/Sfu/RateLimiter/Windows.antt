-- ===== src/Sfu/RateLimiter/Windows.antt =====
-- What the limiter admits, over any sequence of calls.
use dun_tunel.Prelude.{
  ℕ, ◌+◌, ◌≤◌, ◌<◌, ◌≡◌, refl, Bool, true, false, ◌&&◌, List, [], ◌∷◌, ◌++◌, leb, ltb,
  if◌then◌else◌, length, length-append, ltb→lt, arith, Bool-cases, inl, inr, ◌↔◌,
}
use dun_tunel.Sfu.RateLimiter.{RateLimiter, max_events_per_second, rate_window, new, prune, allow}

pub count : (ℕ → Bool) → List ℕ → ℕ
count p [] = 0
count p (t ∷ ts) = (if p t then 1 else 0) + count p ts

-- The times from `w` on, for the length of one window.
abbrev pub within : ℕ → ℕ → Bool
within w t = leb w t && ltb t (w + rate_window)

-- Less than a window before `now`.
abbrev pub recent : ℕ → ℕ → Bool
recent now t = ltb now (t + rate_window)

-- The limiter, and the times that it has admitted, newest first.
pub record Log : Type 0 where
  pub limiter : RateLimiter
  pub admitted : List ℕ

abbrev pub opening : Log
opening = record { limiter = new; admitted = [] }

pub offer : Log → ℕ → Log
offer l now =
    let (admits, limiter) = allow l.limiter now in
    record { limiter = limiter; admitted = if admits then now ∷ l.admitted else l.admitted }

pub offers : Log → List ℕ → Log
offers l [] = l
offers l (t ∷ ts) = offers (offer l t) ts

count-append : (p : ℕ → Bool) (xs ys : List ℕ) → count p (xs ++ ys) ≡ count p xs + count p ys
unfolding count
count-append p [] ys = omega arith
count-append p (x ∷ xs) ys = omega (arith, count-append p xs ys)

count-le-length : (p : ℕ → Bool) (xs : List ℕ) → count p xs ≤ length xs
unfolding count
count-le-length p [] = omega arith
count-le-length p (x ∷ xs) = ground (arith, count-le-length p xs)

-- A predicate of times that lie less than a window before `now`.
abbrev OnlyRecent : ℕ → (ℕ → Bool) → Type 0
OnlyRecent now p = (t : ℕ) → p t ≡ true → now < t + rate_window

count-prune :
    (now : ℕ) (p : ℕ → Bool) (xs : List ℕ) → OnlyRecent now p → count p (prune now xs) ≡ count p xs
unfolding count prune
count-prune now p [] h = refl
count-prune now p (x ∷ xs) h = ground (arith, count-prune now p xs h, h x)

length-prune-le : (now : ℕ) (xs : List ℕ) → length (prune now xs) ≤ length xs
unfolding prune
length-prune-le now [] = omega arith
length-prune-le now (x ∷ xs) = ground (arith, length-prune-le now xs)

-- Ascending, from `lo` to `hi`.
abbrev Ascends : ℕ → ℕ → List ℕ → Type 0
Ascends lo hi [] = Unit {0}
Ascends lo hi (t ∷ ts) = (lo ≤ t) × (t ≤ hi) × Ascends t hi ts

Ascends-weaken :
    (lo lo' hi hi' : ℕ) (ts : List ℕ) → lo' ≤ lo → hi ≤ hi' → Ascends lo hi ts → Ascends lo' hi' ts
Ascends-weaken lo lo' hi hi' [] a b h = tt
Ascends-weaken lo lo' hi hi' (t ∷ ts) a b h =
    (omega arith, omega arith, Ascends-weaken t t hi hi' ts (omega arith) b h.2)

Ascends-append :
    (lo hi now : ℕ) (ts : List ℕ)
    → lo ≤ now
    → hi ≤ now
    → Ascends lo hi ts
    → Ascends lo now (ts ++ now ∷ [])
Ascends-append lo hi now [] a b h = (a, omega arith, tt)
Ascends-append lo hi now (t ∷ ts) a b h =
    (h.0, omega arith, Ascends-append t hi now ts (omega arith) b h.2)

prune-Ascends : (lo hi now : ℕ) (ts : List ℕ) → Ascends lo hi ts → Ascends lo hi (prune now ts)
unfolding prune
prune-Ascends lo hi now [] h = tt
prune-Ascends lo hi now (t ∷ ts) h =
    ground (arith, prune-Ascends t hi now ts h.2, Ascends-weaken t lo hi hi (prune now ts))

-- In an ascending list whose first time is recent, all are.
count-Ascends :
    (lo hi now : ℕ) (ts : List ℕ)
    → now < lo + rate_window
    → Ascends lo hi ts
    → count (recent now) ts ≡ length ts
unfolding count
count-Ascends lo hi now [] r h = refl
count-Ascends lo hi now (t ∷ ts) r h = ground (arith, count-Ascends t hi now ts (omega arith) h.2)

count-recent-prune :
    (lo hi now : ℕ) (ts : List ℕ)
    → Ascends lo hi ts
    → count (recent now) (prune now ts) ≡ length (prune now ts)
unfolding count prune
count-recent-prune lo hi now [] h = refl
count-recent-prune lo hi now (t ∷ ts) h =
    ground (arith, count-recent-prune t hi now ts h.2, count-Ascends t hi now ts, h.2)

-- The window holds every admitted time that is recent, and no window of time holds more than sixty.
pub record IsLimited (now : ℕ) (l : Log) : Type 0 where
  pub ascends : Ascends 0 now l.limiter.window
  pub agrees : (p : ℕ → Bool) → OnlyRecent now p → count p l.admitted ≡ count p l.limiter.window
  pub limited : (w : ℕ) → count (within w) l.admitted ≤ max_events_per_second
  pub bounded : length l.limiter.window ≤ max_events_per_second

opening-IsLimited : IsLimited 0 opening
unfolding count
opening-IsLimited = record {
  ascends = tt;
  agrees = λ p h. refl;
  limited = λ w. omega arith;
  bounded = omega arith;
}

within-OnlyRecent : (w now : ℕ) → within w now ≡ true → OnlyRecent now (within w)
within-OnlyRecent w now h t g = ground arith

module _ (then_ now : ℕ) (l : Log) (later : then_ ≤ now) (v : IsLimited then_ l) where
  abbrev pruned : List ℕ
  pruned = prune now l.limiter.window

  pruned-agrees : (p : ℕ → Bool) → OnlyRecent now p → count p l.admitted ≡ count p pruned
  pruned-agrees p h =
      omega (
        arith,
        count-prune now p l.limiter.window h,
        v.agrees p (λ t g. omega (arith, later, h t g)),
      )

  pruned-Ascends : Ascends 0 now pruned
  pruned-Ascends =
      prune-Ascends 0 now now l.limiter.window
        (Ascends-weaken 0 0 then_ now l.limiter.window (omega arith) later v.ascends)

  admit-IsLimited :
      length pruned < max_events_per_second
      → IsLimited now
          (record { limiter = record { window = pruned ++ now ∷ [] }; admitted = now ∷ l.admitted })
  unfolding count
  admit-IsLimited room = record {
    ascends = Ascends-append 0 now now pruned (omega arith) (omega arith) pruned-Ascends;
    agrees = λ p h. omega (arith, pruned-agrees p h, count-append p pruned (now ∷ []));
    limited = λ w. elim (Bool-cases (within w now)) [
      | inl e ↦ rw e (
          omega (
            arith,
            room,
            pruned-agrees (within w) (within-OnlyRecent w now e),
            count-le-length (within w) pruned,
          ))
      | inr e ↦ rw e (omega (arith, v.limited w))
    ];
    bounded = omega (arith, length-append pruned (now ∷ []), room);
  }

  drop-IsLimited :
      IsLimited now (record { limiter = record { window = pruned }; admitted = l.admitted })
  drop-IsLimited = record {
    ascends = pruned-Ascends;
    agrees = pruned-agrees;
    limited = v.limited;
    bounded = omega (arith, length-prune-le now l.limiter.window, v.bounded);
  }

  offer-IsLimited : IsLimited now (offer l now)
  unfolding offer allow
  offer-IsLimited = elim (Bool-cases (ltb (length pruned) max_events_per_second)) [
    | inl e ↦ rw e (admit-IsLimited (ltb→lt _ _ e))
    | inr e ↦ rw e drop-IsLimited
  ]

  -- A call is refused exactly when sixty of the admitted times are recent.
  allow-refuses :
      ((allow l.limiter now).0 ≡ false) ↔ (count (recent now) l.admitted ≡ max_events_per_second)
  unfolding allow
  allow-refuses =
      let full = pruned-agrees (recent now) (λ t g. ltb→lt _ _ g) in
      let all_recent =
        count-recent-prune 0 now now l.limiter.window
          (Ascends-weaken 0 0 then_ now l.limiter.window (omega arith) later v.ascends) in
      let bound = length-prune-le now l.limiter.window in
      elim (Bool-cases (ltb (length pruned) max_events_per_second)) [
        | inl e ↦ rw e (λ h. cc, λ h. absurd (omega (arith, ltb→lt _ _ e, full, all_recent)))
        | inr e ↦
            let least : max_events_per_second ≤ length pruned = ground (arith, e) in
            rw e (λ h. omega (arith, full, all_recent, bound, v.bounded), λ h. refl)
      ]

-- Times in the order of the calls, the first not before `then_`, the last not after `now`.
abbrev pub InOrder : ℕ → List ℕ → ℕ → Type 0
InOrder then_ [] now = then_ ≤ now
InOrder then_ (t ∷ ts) now = (then_ ≤ t) × InOrder t ts now

IsLimited-later : (then_ now : ℕ) (l : Log) → then_ ≤ now → IsLimited then_ l → IsLimited now l
IsLimited-later then_ now l h v = record {
  ascends = Ascends-weaken 0 0 then_ now l.limiter.window (omega arith) h v.ascends;
  agrees = λ p g. v.agrees p (λ t x. omega (arith, h, g t x));
  limited = v.limited;
  bounded = v.bounded;
}

offers-IsLimited :
    (then_ now : ℕ) (l : Log) (ts : List ℕ)
    → InOrder then_ ts now
    → IsLimited then_ l
    → IsLimited now (offers l ts)
unfolding offers
offers-IsLimited then_ now l [] h v = IsLimited-later then_ now l h v
offers-IsLimited then_ now l (t ∷ ts) h v =
    offers-IsLimited t now (offer l t) ts h.1 (offer-IsLimited then_ t l h.0 v)

-- Over any calls in the order of time, no span of one second holds more than 60 admitted events.
pub admitted-within-le :
    (ts : List ℕ) (now w : ℕ)
    → InOrder 0 ts now
    → count (within w) (offers opening ts).admitted ≤ max_events_per_second
admitted-within-le ts now w h = (offers-IsLimited 0 now opening ts h opening-IsLimited).limited w

-- After any calls in the order of time, an event is refused exactly when 60 of the admitted events
-- are less than one second old.
pub allow-refuses_iff :
    (ts : List ℕ) (now : ℕ)
    → InOrder 0 ts now
    → ((allow (offers opening ts).limiter now).0 ≡ false)
      ↔ (count (recent now) (offers opening ts).admitted ≡ max_events_per_second)
allow-refuses_iff ts now h =
    allow-refuses now now (offers opening ts) (omega arith)
      (offers-IsLimited 0 now opening ts h opening-IsLimited)
