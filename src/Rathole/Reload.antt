-- ===== src/Rathole/Reload.antt =====
-- `trigger_reload` of crates/edge-rathole-bridge/src/service_registry.rs, on Unix. The system's files,
-- signals and commands are a parameter. Errors carry a shorter text.
use dun_tunel.Prelude.{
  ℕ, zero, suc, ◌≤◌, Bool, true, false, List, [], ◌∷◌, Option, none, some, Text, text, length, ◌==◌,
  if◌then◌else◌, arith, trim, is_whitespace, on_head,
}
use dun_tunel.Prelude.Int.{ℤ, pos, negsuc}
use dun_tunel.Shared.Env.{Env, var, parse_up_to, at_most}
use dun_tunel.Storage.Numbers.{digits, next}
use dun_tunel.Shared.Errors.{EdgeResult, ok, err, EdgeError}

-- `kill` says whether the hang-up signal was sent, `status` whether a command ended with success.
pub record System : Type 0 where
  pub read_to_string : Text → EdgeResult Text
  pub kill : ℤ → Bool
  pub status : Text → List Text → EdgeResult Bool

pub data Effect : Type 0 where
  sighup : (pid : ℤ) → Effect
  command : (exe : Text) (args : List Text) → Effect

abbrev pub negated : Option ℕ → Option ℤ
negated none = none
negated (some zero) = some (pos 0)
negated (some (suc n)) = some (negsuc n)

abbrev pub positive : Option ℕ → Option ℤ
positive none = none
positive (some n) = some (pos n)

-- `parse::<i32>`.
unfoldable pub parse_i32 : Text → Option ℤ
unfolding digits parse_up_to
parse_i32 [] = none
parse_i32 (c ∷ []) = positive (parse_up_to 2147483647 (c ∷ []))
parse_i32 (c ∷ d ∷ s) =
    if c == b'-'
    then negated (at_most 2147483648 (digits (next 0 d) s))
    else positive (parse_up_to 2147483647 (c ∷ d ∷ s))

unfoldable pub pieces : Text → List Text
unfolding is_whitespace
pieces [] = [] ∷ []
pieces (c ∷ s) = let rest = pieces s in if is_whitespace c then [] ∷ rest else on_head c rest

abbrev pub filled : List Text → List Text
filled [] = []
filled ([] ∷ ps) = filled ps
filled ((c ∷ p) ∷ ps) = (c ∷ p) ∷ filled ps

unfoldable pub split_whitespace : Text → List Text
unfolding pieces
split_whitespace s = filled (pieces s)

module _ (system : System) where
  abbrev pub signal : Option ℤ → EdgeResult (Unit {0}) × List Effect
  signal none = (err (EdgeError.config (text "invalid pid file")), [])
  signal (some pid) = (
    if system.kill pid then ok tt else err (EdgeError.config (text "kill SIGHUP failed")),
    sighup pid ∷ [],
  )

  abbrev pub with_pid : EdgeResult Text → EdgeResult (Unit {0}) × List Effect
  with_pid (ok pid_str) = signal (parse_i32 (trim pid_str))
  with_pid (err e) = (err e, [])

  unfoldable pub reload_via_pid_file : Text → EdgeResult (Unit {0}) × List Effect
  unfolding parse_i32 trim
  reload_via_pid_file pid_file = with_pid (system.read_to_string pid_file)

  abbrev pub exited : EdgeResult Bool → EdgeResult (Unit {0})
  exited (ok true) = ok tt
  exited (ok false) = err (EdgeError.config (text "rathole reload command exited non-zero"))
  exited (err e) = err e

  abbrev pub run_parts : List Text → EdgeResult (Unit {0}) × List Effect
  run_parts [] = (err (EdgeError.config (text "RATHOLE_RELOAD_CMD is empty")), [])
  run_parts (exe ∷ args) = (exited (system.status exe args), command exe args ∷ [])

  unfoldable pub reload_via_command : Text → EdgeResult (Unit {0}) × List Effect
  unfolding split_whitespace
  reload_via_command cmd = run_parts (split_whitespace cmd)

  abbrev pub by_variables : Option Text → Option Text → EdgeResult (Unit {0}) × List Effect
  by_variables (some pid_file) cmd = reload_via_pid_file pid_file
  by_variables none (some cmd) = reload_via_command cmd
  by_variables none none = (ok tt, [])

  -- The result, with what it did.
  unfoldable pub trigger_reload : Env → EdgeResult (Unit {0}) × List Effect
  unfolding reload_via_pid_file reload_via_command
  trigger_reload env = by_variables (var env "RATHOLE_PID_FILE") (var env "RATHOLE_RELOAD_CMD")

  signal-once : (pid : Option ℤ) → length (signal pid).1 ≤ 1
  signal-once none = omega arith
  signal-once (some pid) = omega arith

  with_pid-once : (r : EdgeResult Text) → length (with_pid r).1 ≤ 1
  with_pid-once (ok s) = signal-once (parse_i32 (trim s))
  with_pid-once (err e) = omega arith

  run_parts-once : (parts : List Text) → length (run_parts parts).1 ≤ 1
  run_parts-once [] = omega arith
  run_parts-once (exe ∷ args) = omega arith

  by_variables-once : (pid_file cmd : Option Text) → length (by_variables pid_file cmd).1 ≤ 1
  unfolding reload_via_pid_file reload_via_command
  by_variables-once (some pid_file) cmd = with_pid-once (system.read_to_string pid_file)
  by_variables-once none (some cmd) = run_parts-once (split_whitespace cmd)
  by_variables-once none none = omega arith

  -- One reload sends at most one signal or runs one command.
  pub trigger_reload-once : (env : Env) → length (trigger_reload env).1 ≤ 1
  unfolding trigger_reload
  trigger_reload-once env =
      by_variables-once (var env "RATHOLE_PID_FILE") (var env "RATHOLE_RELOAD_CMD")
