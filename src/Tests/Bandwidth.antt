-- ===== src/Tests/Bandwidth.antt =====
-- The callback client and the reporter at concrete inputs.
use dun_tunel.Prelude.{
  text_eq, ℕ, ◌≡◌, ◌↔◌, Bool, true, false, List, [], ◌∷◌, none, some, Text, text, Assoc, lookup,
  ltb,
}
use dun_tunel.Shared.Errors.{ok}
use dun_tunel.Bandwidth.Callback.{send}
use dun_tunel.Bandwidth.Callback.Attempts.{posted, slept, given_up, send-attempts}
use dun_tunel.Storage.Stores.{session_path, is_safe}
use dun_tunel.Bandwidth.Reporter.{Reading, Reporter, start, tick}
use dun_tunel.Bandwidth.Reporter.Rounds.{tick-start}
use dun_tunel.Bandwidth.Reporter.Ledger.{
  Accounts, number_or_zero, reports_of, report_calls, report_calls-accounted,
}

-- The first attempt fails, the second works.
abbrev flaky : ℕ → Bool
flaky attempt = ltb 0 attempt

send-attempts_example :
    ((send flaky).0 ≡ ok tt)
    × (posted (send flaky).1 ≡ 2)
    × (slept (send flaky).1 ≡ 200)
    × ((given_up (send flaky).1 ≡ true)
        ↔ ((flaky 0 ≡ false) × (flaky 1 ≡ false) × (flaky 2 ≡ false)))
send-attempts_example = send-attempts flaky

abbrev reading : ℕ → ℕ → Reading
reading now bytes = record { now = now; bytes = some bytes; sends = true; saves = true }

abbrev calls : List (Reading × Text)
calls =
    (reading 60 200000, text "s1")
    ∷ (reading 120 250000, text "s1")
    ∷ (reading 180 900000, text "s1")
    ∷ []

abbrev files : Assoc ℕ
files = (text "s1", 4) ∷ []

report_calls-accounted_example :
    let r = report_calls calls (start 0 files) in
    Accounts
      (number_or_zero (lookup (text "s1") files))
      (lookup (text "s1") r.state)
      (reports_of (text "s1") r.sent)
report_calls-accounted_example = report_calls-accounted files 0 calls (text "s1")

abbrev reported_two : Reporter
reported_two = report_calls calls (start 0 files)

tick-start_example :
    lookup (text "s1") (tick (λ sid. reading 0 0) (λ _. true) [] (start 0 files)).store ≡ none
unfolding session_path is_safe text_eq
tick-start_example = tick-start (λ sid. reading 0 0) 0 files (text "s1")
