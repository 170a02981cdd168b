-- ===== src/Rathole/Services.antt =====
-- crates/edge-rathole-bridge/src/service_registry.rs. The configuration file is the list of the
-- services that it was rendered from; whether it can be rendered and written is an argument. The
-- reload that follows changes no result.
use dun_tunel.Prelude.{
  Bool, true, false, List, [], Option, none, some, Text, text, if◌then◌else◌, Assoc, lookup, insert,
  remove, values,
}
use dun_tunel.Shared.Errors.{EdgeResult, ok, err, EdgeError}

pub data RatholeTransport : Type 0 where
  tcp : RatholeTransport
  udp : RatholeTransport

pub record RatholeService : Type 0 where
  pub name : Text
  pub token_hash : Text
  pub bind_addr : Text
  pub transport : Option RatholeTransport

pub record ServiceRegistry : Type 0 where
  pub services : Assoc RatholeService
  pub config : List RatholeService

abbrev pub new : ServiceRegistry
new = record { services = []; config = [] }

unfoldable pub persist_and_reload : Bool → ServiceRegistry → EdgeResult (Unit {0}) × ServiceRegistry
persist_and_reload works r =
    if works
    then (ok tt, record r { config = values r.services })
    else (err (EdgeError.io (text "write failed")), r)

unfoldable pub register :
    Bool → RatholeService → ServiceRegistry → EdgeResult (Unit {0}) × ServiceRegistry
register works svc r =
    persist_and_reload works (record r { services = insert svc.name svc r.services })

unfoldable pub deregister : Bool → Text → ServiceRegistry → EdgeResult (Unit {0}) × ServiceRegistry
deregister works session_id r =
    persist_and_reload works (record r { services = remove session_id r.services })

-- `Ok(found)` of what the writing returned.
abbrev pub known : EdgeResult (Unit {0}) × ServiceRegistry → EdgeResult Bool × ServiceRegistry
known (ok _, r) = (ok true, r)
known (err e, r) = (err e, r)

abbrev pub rotate :
    Bool → Text → Text → Option RatholeService → ServiceRegistry → EdgeResult Bool × ServiceRegistry
rotate works session_id raw_token none r = (ok false, r)
rotate works session_id raw_token (some svc) r = known (
    persist_and_reload works (record r {
      services = insert session_id (record svc { token_hash = raw_token }) r.services;
    }))

unfoldable pub update_token :
    Bool → Text → Text → ServiceRegistry → EdgeResult Bool × ServiceRegistry
update_token works session_id raw_token r =
    rotate works session_id raw_token (lookup session_id r.services) r
