-- ===== src/Sfu/InputBridge/Endpoint.antt =====
-- `neko_admin_endpoint` of crates/edge-sfu/src/router_manager.rs: where a session's bridge connects to.
use dun_tunel.Prelude.{
  ℕ, zero, suc, ◌-◌, Bool, true, false, [], ◌∷◌, ◌++◌, Option, none, some, Text, text, trim, length,
  starts_with, if◌then◌else◌,
}
use dun_tunel.Shared.Env.{Env, var}

-- `replace` of a text. `skip` characters of it belong to the occurrence before.
unfoldable pub replace_from : ℕ → Text → Text → Text → Text
unfolding starts_with
replace_from skip from to [] = []
replace_from (suc skip) from to (c ∷ s) = replace_from skip from to s
replace_from zero from to (c ∷ s) = elim (starts_with (c ∷ s) from) [
  | true ↦ to ++ replace_from (length from - 1) from to s
  | false ↦ c ∷ replace_from 0 from to s
]

abbrev pub is_blank : Text → Bool
is_blank s = elim (trim s) [ [] ↦ true | c ∷ t ↦ false ]

abbrev pub endpoint : Text → Option Text → Option Text → Option (Text × Text)
endpoint session_id none token = none
endpoint session_id (some url_template) none = none
endpoint session_id (some url_template) (some token) =
    if is_blank url_template
    then none
    else (if is_blank token
        then none
        else some (replace_from 0 (text "{session}") session_id url_template, token))

unfoldable pub neko_admin_endpoint : Env → Text → Option (Text × Text)
unfolding replace_from trim
neko_admin_endpoint env session_id =
    endpoint session_id (var env "NEKO_ADMIN_WS_URL") (var env "NEKO_ADMIN_TOKEN")
