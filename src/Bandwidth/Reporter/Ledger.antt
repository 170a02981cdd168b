-- ===== src/Bandwidth/Reporter/Ledger.antt =====
-- What the reports of a session add up to.
use dun_tunel.Prelude.{
  ℕ, ◌+◌, ◌-◌, ◌≤◌, ◌≡◌, refl, false, List, [], ◌∷◌, Option, none, some, Text, text_eq, text_eq_iff,
  length, lookup, insert, lookup-insert, Assoc, ltb, if◌then◌else◌, arith, Bool-cases, Option-cases,
  inl, inr,
}
use dun_tunel.Storage.Stores.{session_path}
use dun_tunel.Bandwidth.Reporter.{
  SessionState, BandwidthDelta, Reporter, Reading, min_delta_bytes, entry_or, event_of, reported,
  report_entry, report_one, restored, start,
}

unfoldable pub reports_of : Text → List BandwidthDelta → List BandwidthDelta
reports_of sid [] = []
reports_of sid (e ∷ es) =
    let rest = reports_of sid es in if text_eq e.session_id sid then e ∷ rest else rest

unfoldable pub total : List BandwidthDelta → ℕ
total [] = 0
total (e ∷ es) = e.delta_bytes + total es

-- Newest first: each has the number of those before it, counted from `base`, and at least the least
-- number of bytes.
abbrev pub Numbered : ℕ → List BandwidthDelta → Type 0
Numbered base [] = Unit {0}
Numbered base (e ∷ es) =
    (e.sequence ≡ base + length es) × (min_delta_bytes ≤ e.delta_bytes) × Numbered base es

-- The entry of a session is what its reports add up to.
abbrev pub Accounts : ℕ → Option SessionState → List BandwidthDelta → Type 0
Accounts base none es = (es ≡ []) × (base ≡ 0)
Accounts base (some s) es =
    (total es ≡ s.cumulative_bytes) × (s.next_sequence ≡ base + length es) × Numbered base es

abbrev pub number_or_zero : Option ℕ → ℕ
number_or_zero none = 0
number_or_zero (some n) = n

abbrev pub AreAccounted : Assoc ℕ → Reporter → Type 0
AreAccounted store r =
    (sid : Text)
    → Accounts (number_or_zero (lookup sid store)) (lookup sid r.state) (reports_of sid r.sent)

pub report_calls : List (Reading × Text) → Reporter → Reporter
report_calls [] r = r
report_calls ((i, sid) ∷ calls) r = report_calls calls (report_one i sid r)

entry_or-Accounts :
    (base now : ℕ) (found : Option SessionState) (es : List BandwidthDelta)
    → Accounts base found es
    → Accounts base (some (entry_or now found)) es
unfolding total
entry_or-Accounts base now none es h = rw (h.0, h.1) (refl, refl, tt)
entry_or-Accounts base now (some s) es h = h

report-Accounts :
    (base now cumulative : ℕ) (sid : Text) (s : SessionState) (es : List BandwidthDelta)
    → ltb (cumulative - s.cumulative_bytes) min_delta_bytes ≡ false
    → Accounts base (some s) es
    → Accounts base (some (reported now cumulative s)) (event_of sid now cumulative s ∷ es)
unfolding total
report-Accounts base now cumulative sid s es enough h =
    (ground (arith, enough, h.0), omega (arith, h.1), (h.1, ground (arith, enough), h.2))

kept-AreAccounted :
    (store : Assoc ℕ) (now : ℕ) (sid : Text) (r : Reporter)
    → AreAccounted store r
    → AreAccounted store
        (record r { state = insert sid (entry_or now (lookup sid r.state)) r.state })
kept-AreAccounted store now sid r h k = elim (Bool-cases (text_eq sid k)) [
  | inl y ↦
      let same : sid ≡ k = (text_eq_iff sid k).0 y in
      rw (lookup-insert, y, same)
        (entry_or-Accounts (number_or_zero (lookup k store)) now (lookup k r.state) _ (h k))
  | inr n ↦ rw (lookup-insert, n) (h k)
]

sent-AreAccounted :
    (store store' : Assoc ℕ) (now cumulative : ℕ) (sid : Text) (r : Reporter)
    → let entry = entry_or now (lookup sid r.state) in
      ltb (cumulative - entry.cumulative_bytes) min_delta_bytes ≡ false
      → AreAccounted store r
      → AreAccounted store (record {
        state = insert sid (reported now cumulative entry) r.state;
        store = store';
        sent = event_of sid now cumulative entry ∷ r.sent;
      })
unfolding reports_of
sent-AreAccounted store store' now cumulative sid r enough h k = elim (Bool-cases (text_eq sid k)) [
  | inl y ↦
      let same : sid ≡ k = (text_eq_iff sid k).0 y in
      let base = number_or_zero (lookup k store) in
      let found = lookup k r.state in
      rw (lookup-insert, y, same)
        (report-Accounts base now cumulative k (entry_or now found) (reports_of k r.sent)
          (rw same at enough) (entry_or-Accounts base now found (reports_of k r.sent) (h k)))
  | inr n ↦ rw (lookup-insert, n) (h k)
]

report_entry-AreAccounted :
    (store : Assoc ℕ) (i : Reading) (sid : Text) (cumulative : ℕ) (r : Reporter)
    → AreAccounted store r
    → AreAccounted store (report_entry i sid cumulative (entry_or i.now (lookup sid r.state)) r)
unfolding report_entry
report_entry-AreAccounted store i sid cumulative r h =
    let entry = entry_or i.now (lookup sid r.state) in
    let kept = kept-AreAccounted store i.now sid r h in
    elim (Bool-cases (ltb (cumulative - entry.cumulative_bytes) min_delta_bytes)) [
      | inl few ↦ rw few kept
      | inr enough ↦ elim (Bool-cases i.sends) [
        | inl y ↦
            rw (enough, y)
              (sent-AreAccounted store
                (if i.saves
                  then insert (session_path sid) (entry.next_sequence + 1) r.store
                  else r.store)
                i.now cumulative sid r enough h)
        | inr n ↦ rw (enough, n) kept
      ]
    ]

report_one-AreAccounted :
    (store : Assoc ℕ) (i : Reading) (sid : Text) (r : Reporter)
    → AreAccounted store r
    → AreAccounted store (report_one i sid r)
unfolding report_one report_entry
report_one-AreAccounted store i sid r h = elim (Option-cases i.bytes) [
  | inl e ↦ rw e h
  | inr (cumulative, e) ↦ rw e (report_entry-AreAccounted store i sid cumulative r h)
]

report_calls-AreAccounted :
    (store : Assoc ℕ) (calls : List (Reading × Text)) (r : Reporter)
    → AreAccounted store r
    → AreAccounted store (report_calls calls r)
unfolding report_calls
report_calls-AreAccounted store [] r h = h
report_calls-AreAccounted store ((i, sid) ∷ calls) r h =
    report_calls-AreAccounted store calls (report_one i sid r)
      (report_one-AreAccounted store i sid r h)

restored-Accounts :
    (now : ℕ) (sid : Text) (store : Assoc ℕ)
    → Accounts (number_or_zero (lookup sid store)) (lookup sid (restored now store)) []
unfolding restored lookup total
restored-Accounts now sid [] = (refl, refl)
restored-Accounts now sid ((j, n) ∷ store) = elim (Bool-cases (text_eq j sid)) [
  | inl y ↦ rw y (refl, omega arith, tt)
  | inr n ↦ rw n (restored-Accounts now sid store)
]

-- After any reports of any sessions, from a start on the sequence files `store`: the reports of each
-- session add up to the bytes recorded for it, carry consecutive numbers from the number in its file
-- (0 without a file) to one below the next number, and have at least 104858 bytes each. A session
-- that is not recorded has no reports and no file.
pub report_calls-accounted :
    (store : Assoc ℕ) (now : ℕ) (calls : List (Reading × Text)) (sid : Text)
    → let r = report_calls calls (start now store) in
      Accounts (number_or_zero (lookup sid store)) (lookup sid r.state) (reports_of sid r.sent)
unfolding start reports_of
report_calls-accounted store now calls sid =
    report_calls-AreAccounted store calls (start now store) (λ k. restored-Accounts now k store) sid
