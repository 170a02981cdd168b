-- ===== src/Bandwidth/Reporter.antt =====
-- crates/edge-bandwidth/src/reporter.rs. Sizes are bytes; times are what the clock shows, in any unit.
-- The sequence files of persistence.rs are a map from the name of a file to its number.
pub mod Ledger
pub mod Rounds
use dun_tunel.Prelude.{
  ℕ, ◌+◌, ◌-◌, Bool, true, false, List, [], ◌∷◌, Option, none, some, Text, ltb, if◌then◌else◌,
  Assoc, lookup, insert, remove, keys, member,
}
use dun_tunel.Storage.Stores.{session_path}
use dun_tunel.Shared.Errors.{EdgeResult, ok, err}

-- `delta_mb < 0.1`, for `delta_mb` the bytes as an `f64` over 2^20. The division is exact below 2^53,
-- and the `f64` for 0.1 is between 104857 / 2^20 and 104858 / 2^20.
abbrev pub min_delta_bytes : ℕ
min_delta_bytes = 104858

pub record SessionState : Type 0 where
  pub cumulative_bytes : ℕ
  pub next_sequence : ℕ
  pub last_reported_at : ℕ

pub record BandwidthDelta : Type 0 where
  pub session_id : Text
  pub delta_bytes : ℕ
  pub interval_start : ℕ
  pub interval_end : ℕ
  pub sequence : ℕ

-- `sent` are the events that `Client::send` has returned `Ok` for, newest first; `store` holds the
-- sequence files.
pub record Reporter : Type 0 where
  pub state : Assoc SessionState
  pub store : Assoc ℕ
  pub sent : List BandwidthDelta

-- What a report finds: the time, what `get_session_bytes` returns, whether `Client::send` returns
-- `Ok`, and whether the sequence file can be written.
pub record Reading : Type 0 where
  pub now : ℕ
  pub bytes : Option ℕ
  pub sends : Bool
  pub saves : Bool

-- `entry(..).or_insert_with(..)`.
abbrev pub entry_or : ℕ → Option SessionState → SessionState
entry_or now none = record { cumulative_bytes = 0; next_sequence = 0; last_reported_at = now }
entry_or now (some s) = s

abbrev pub event_of : Text → ℕ → ℕ → SessionState → BandwidthDelta
event_of session_id now cumulative entry = record {
  session_id = session_id;
  delta_bytes = cumulative - entry.cumulative_bytes;
  interval_start = entry.last_reported_at;
  interval_end = now;
  sequence = entry.next_sequence;
}

abbrev pub reported : ℕ → ℕ → SessionState → SessionState
reported now cumulative entry = record {
  cumulative_bytes = cumulative;
  next_sequence = entry.next_sequence + 1;
  last_reported_at = now;
}

-- The report of `cumulative` bytes for a session with the entry `entry`.
unfoldable pub report_entry : Reading → Text → ℕ → SessionState → Reporter → Reporter
report_entry i session_id cumulative entry r =
    let kept = record r { state = insert session_id entry r.state } in
    if ltb (cumulative - entry.cumulative_bytes) min_delta_bytes
    then kept
    else if i.sends
    then record {
      state = insert session_id (reported i.now cumulative entry) r.state;
      store =
          if i.saves
          then insert (session_path session_id) (entry.next_sequence + 1) r.store
          else r.store;
      sent = event_of session_id i.now cumulative entry ∷ r.sent;
    }
    else kept

abbrev pub report_bytes : Reading → Text → Option ℕ → Reporter → Reporter
report_bytes i session_id none r = r
report_bytes i session_id (some cumulative) r =
    report_entry i session_id cumulative (entry_or i.now (lookup session_id r.state)) r

unfoldable pub report_one : Reading → Text → Reporter → Reporter
report_one i session_id r = report_bytes i session_id i.bytes r

unfoldable pub report_all : (Text → Reading) → List Text → Reporter → Reporter
report_all readings [] r = r
report_all readings (sid ∷ sids) r = report_all readings sids (report_one (readings sid) sid r)

-- The sessions of the reporter that are not among the active ones.
unfoldable pub ended : List Text → List Text → List Text
ended active [] = []
ended active (sid ∷ sids) =
    let rest = ended active sids in if member sid active then rest else sid ∷ rest

-- Their entries go, and their sequence files where the removal works.
unfoldable pub forget : (Text → Bool) → List Text → Reporter → Reporter
forget removes [] r = r
forget removes (sid ∷ sids) r = forget removes sids (record r {
  state = remove sid r.state;
  store = if removes sid then remove (session_path sid) r.store else r.store;
})

-- One round of the loop, for the sessions that the media server lists as active.
unfoldable pub tick : (Text → Reading) → (Text → Bool) → List Text → Reporter → Reporter
tick readings removes active r =
    let r' = report_all readings active r in forget removes (ended active (keys r'.state)) r'

-- The entries that the sequence files give at start: the name of a file is taken for the session's id.
unfoldable pub restored : ℕ → Assoc ℕ → Assoc SessionState
restored now [] = []
restored now ((sid, sequence) ∷ store) =
    (sid, record { cumulative_bytes = 0; next_sequence = sequence; last_reported_at = now })
    ∷ restored now store

-- The reporter as the process starts, on the sequence files that it finds.
unfoldable pub start : ℕ → Assoc ℕ → Reporter
start now store = record { state = restored now store; store = store; sent = [] }
