-- ===== src/Gate/Boot.antt =====
-- `main` of crates/edge-viewer-gate/src/main.rs: what the gate starts with, and what it answers then.
use dun_tunel.Prelude.{
  All, ◌∷◌, ap, ◌∙◌, ℕ, ◌≡◌, refl, ◌↔◌, subst, Bool, true, false, List, [], Option, none, some,
  Text, text,
}
use dun_tunel.Prelude.Results.{Result, ok, ◌>>=◌, ok_or, ok_or-eq-ok, Holds, >>=-Holds}
use dun_tunel.Gate.Revocation.Mirror.{Succeeds, quiet, news}
use dun_tunel.Gate.Revocation.Schedule.{run}
use dun_tunel.Gate.Revocation.{
  Reply, Poll, poll, record_reply, not_modified, listed, unparsed, http_error, unreachable,
  RevocationList, Poller, start_list, start_poller, is_some, is_fresh,
}
use dun_tunel.Gate.Verify.{JwksCache, HeaderMap, Libraries, Response, check_handler}
use dun_tunel.Gate.Verify.Decision.{check_handler_status}
use dun_tunel.Gate.Jwks.{JwkEntry, first_fetch, first_fetch-IsServing, IsServing}
use dun_tunel.Gate.Config.{Config}

pub record AppState (Key : Type 0) : Type 0 where
  pub jwks : JwksCache Key
  pub revocation : RevocationList
  pub revocation_required : Bool

-- Beside the state, the poller of the revocation list, where there is one.
pub record Started (Key : Type 0) : Type 0 where
  pub state : AppState Key
  pub poller : Option Poller

abbrev pub poller_of : Option Text → ℕ → ℕ → ℕ → Option Poller
poller_of none poll_interval max_staleness now = none
poller_of (some url) poll_interval max_staleness now =
    some (start_poller poll_interval max_staleness now)

module _ {Addr Key : Type 0} (decode : Text → Option (List ℕ)) (from_ed_der : List ℕ → Key) where
  -- `answer` is what dun-api returns to the first fetch of its keys.
  unfoldable pub start : Config Addr → Option (List JwkEntry) → ℕ → Result Text (Started Key)
  unfolding first_fetch start_list start_poller
  start cfg answer now = do
    jwks ← ok_or (first_fetch decode from_ed_der answer) (text "initial JWKS fetch")
    ok (record {
      state = record {
        jwks = jwks;
        revocation = start_list cfg.revocation_url cfg.revocation_max_staleness;
        revocation_required = cfg.revocation_required;
      };
      poller =
          poller_of cfg.revocation_url cfg.revocation_poll_interval cfg.revocation_max_staleness
            now;
    })

module _ {Key : Type 0} (lib : Libraries Key) (from_str : Text → Option Text) where
  abbrev pub check : AppState Key → HeaderMap → ℕ → Response
  check state headers now =
      check_handler lib from_str headers state.jwks state.revocation state.revocation_required now

start_list-stale :
    (url : Option Text) (max_staleness now : ℕ)
    → (is_fresh (start_list url max_staleness) now ≡ false) ↔ (is_some url ≡ true)
unfolding is_fresh start_list
start_list-stale none max_staleness now = (λ h. cc, λ h. cc)
start_list-stale (some url) max_staleness now = (λ h. refl, λ h. refl)

-- The list that the handlers read after some polls: they share it with the poller.
abbrev pub list_after : List Poll → Option Poller → RevocationList → RevocationList
list_after polls none list = list
list_after polls (some p) list = record list { inner = (run p polls).inner }

abbrev pub after_polls : {Key : Type 0} → List Poll → Started Key → AppState Key
after_polls polls started = record started.state {
  revocation = list_after polls started.poller started.state.revocation;
}

failed_poll : (p : Poller) (r : Poll) → ¬ Succeeds r.reply → (poll p r).inner ≡ p.inner
unfolding poll
failed_poll p r h = kept r.reply h
  where
    kept : (reply : Reply) → ¬ Succeeds reply → record_reply p.inner r.recorded_at reply ≡ p.inner
    kept not_modified n = absurd (n quiet)
    kept (listed jtis etag) n = absurd (n news)
    kept unparsed n = refl
    kept http_error n = refl
    kept unreachable n = refl

failed_polls :
    (p : Poller) (polls : List Poll)
    → All (λ r. ¬ Succeeds r.reply) polls
    → (run p polls).inner ≡ p.inner
unfolding run
failed_polls p [] h = refl
failed_polls p (r ∷ polls) h = failed_polls (poll p r) polls h.1 ∙ failed_poll p r h.0

list_after-failed :
    (url : Option Text) (poll_interval max_staleness now : ℕ) (polls : List Poll)
    → All (λ r. ¬ Succeeds r.reply) polls
    → list_after polls
        (poller_of url poll_interval max_staleness now)
        (start_list url max_staleness)
      ≡ start_list url max_staleness
unfolding start_list start_poller
list_after-failed none poll_interval max_staleness now polls h = refl
list_after-failed (some url) poll_interval max_staleness now polls h =
    ap (λ i. record (start_list (some url) max_staleness) { inner = i })
      (failed_polls (start_poller poll_interval max_staleness now) polls h)

module _ {Addr Key : Type 0} (decode : Text → Option (List ℕ)) (from_ed_der : List ℕ → Key)
    (lib : Libraries Key) (from_str : Text → Option Text) (cfg : Config Addr) where
  abbrev IsStrict : List Poll → HeaderMap → ℕ → Started Key → Type 0
  IsStrict polls headers later started =
      IsServing decode from_ed_der started.state.jwks
      × (((check lib from_str (after_polls polls started) headers later).status ≡ 503)
          ↔ ((cfg.revocation_required ≡ true) × (is_some cfg.revocation_url ≡ true)))

  -- A gate that has started has keys. After any polls of the revocation list that all fail, it answers
  -- 503 to every request where strict mode is on and there is a list to poll, and otherwise to none.
  pub start-strict :
      (answer : Option (List JwkEntry)) (now : ℕ) (started : Started Key) (polls : List Poll)
      (headers : HeaderMap) (later : ℕ)
      → start decode from_ed_der cfg answer now ≡ ok started
      → All (λ r. ¬ Succeeds r.reply) polls
      → IsServing decode from_ed_der started.state.jwks
        × (((check lib from_str (after_polls polls started) headers later).status ≡ 503)
            ↔ ((cfg.revocation_required ≡ true) × (is_some cfg.revocation_url ≡ true)))
  unfolding start dun_tunel.Gate.Jwks.refreshes
  start-strict answer now started polls headers later h failed =
      let fetched = first_fetch decode from_ed_der answer in
      let P = IsStrict polls headers later in
      subst (Holds P) h (
        >>=-Holds P (ok_or fetched (text "initial JWKS fetch")) _ (λ jwks e.
          let list = start_list cfg.revocation_url cfg.revocation_max_staleness in
          let kept =
            list_after-failed cfg.revocation_url cfg.revocation_poll_interval
              cfg.revocation_max_staleness now polls failed in
          let status =
            (check_handler_status lib from_str headers jwks list cfg.revocation_required later).0 in
          let stale = start_list-stale cfg.revocation_url cfg.revocation_max_staleness later in
          (
            first_fetch-IsServing decode from_ed_der answer jwks [] (ok_or-eq-ok fetched _ e),
            rw kept (
              λ s. ((status.0 s).0, stale.0 (status.0 s).1),
              λ (required, url). status.1 (required, stale.1 url),
            ),
          )))
