-- ===== src/Caddy/Admin/Policies.antt =====
-- The wildcard TLS policy: `ensure_wildcard_tls_policy` and `policy_subject_overlaps`.
use dun_tunel.Prelude.{
  ℕ, Bool, true, false, not, ◌&&◌, ◌||◌, ◌==◌, List, [], ◌∷◌, ◌++◌, Option, none, some, Text, text,
  text_eq, trim_end_by, strip_prefix, strip_suffix, contains_char, if◌then◌else◌,
}
use dun_tunel.Prelude.Json
use dun_tunel.Prelude.Json.{Json, string, is_null, as_str, as_array, str, ◌:=◌, obj, list, only}
use dun_tunel.Caddy.Admin.Requests.{
  tls_policies, tls_automation, Response, Exchange, Action, ◌>>=◌, pure, failed, require, some_or,
  is_success, get_of, patch_to, send,
}
use dun_tunel.Caddy.Admin.Client.{put_with_dedup_retry, entries_of, array_of}

abbrev pub is_dot : ℕ → Bool
is_dot c = c == b'.'

abbrev pub is_empty : Text → Bool
is_empty [] = true
is_empty (c ∷ s) = false

-- What stands before the suffix is one label.
unfoldable pub one_label : Option Text → Bool
unfolding trim_end_by contains_char
one_label none = false
one_label (some prefix) =
    let label = trim_end_by is_dot prefix in not (is_empty label) && not (contains_char b'.' label)

unfoldable pub subject_overlaps : Text → Text → Option Text → Bool
unfolding text_eq one_label strip_suffix
subject_overlaps wildcard suffix none = false
subject_overlaps wildcard suffix (some s) = text_eq s wildcard || one_label (strip_suffix suffix s)

unfoldable pub any_overlaps : Text → Text → List Json → Bool
unfolding subject_overlaps
any_overlaps wildcard suffix [] = false
any_overlaps wildcard suffix (j ∷ js) =
    subject_overlaps wildcard suffix (as_str j) || any_overlaps wildcard suffix js

unfoldable pub policy_subject_overlaps : Json → Text → Bool
unfolding any_overlaps strip_prefix
policy_subject_overlaps policy wildcard = elim (strip_prefix (text "*.") wildcard) [
  | none ↦ false
  | some suffix ↦ elim (array_of (Json.get (text "subjects") policy)) [
    | none ↦ false
    | some subjects ↦ any_overlaps wildcard suffix subjects
  ]
]

-- The policies that stay.
unfoldable pub without_overlaps : Text → List Json → List Json
unfolding policy_subject_overlaps
without_overlaps wildcard [] = []
without_overlaps wildcard (j ∷ js) =
    let rest = without_overlaps wildcard js in
    if is_null j || policy_subject_overlaps j wildcard then rest else j ∷ rest

abbrev pub policy_id : Text
policy_id = text "dun-tunel-wildcard-tls"

abbrev pub wildcard_subject : Text → Text → Text
wildcard_subject region domain = text "*." ++ region ++ text "." ++ domain

abbrev pub wildcard_policy : Text → Text → Json
wildcard_policy subject token = obj (
    "@id" := string policy_id
    ∷ "subjects" := only (string subject)
    ∷ "issuers"
      := only (
          obj (
            "module" := str "acme"
            ∷ "challenges"
              := obj (
                  "dns"
                    := obj (
                        "provider"
                          := obj ("name" := str "cloudflare" ∷ "api_token" := string token ∷ [])
                        ∷ [])
                  ∷ [])
            ∷ []))
    ∷ [])

module _ {S : Type 0} (exchange : Exchange S) where
  abbrev pub merge_policies : Text → Json → Response → Action S (Unit {0})
  merge_policies subject policy probe = do
    existing ← some_or probe.json (failed "caddy tls policies parse")
    p ←
        send exchange "caddy patch tls policies"
          (patch_to tls_policies (list (policy ∷ without_overlaps subject (entries_of existing))))
    require (is_success p) (failed "caddy patch tls policies failed")

  abbrev pub create_policies : Json → Action S (Unit {0})
  create_policies policy = do
    p ←
        send exchange "caddy patch tls automation"
          (patch_to tls_automation (obj ("policies" := only policy ∷ [])))
    require (is_success p) (failed "caddy patch tls automation failed")

  abbrev pub bootstrap_policies : Text → Json → Action S (Unit {0})
  bootstrap_policies subject policy = do
    probe ← send exchange "caddy get tls policies" (get_of tls_policies)
    (if is_success probe then merge_policies subject policy probe else create_policies policy)

  unfoldable pub ensure_wildcard_tls_policy : Text → Text → Text → Action S (Unit {0})
  unfolding put_with_dedup_retry send without_overlaps
  ensure_wildcard_tls_policy region domain token =
      let subject = wildcard_subject region domain in
      let policy = wildcard_policy subject token in
      do
        r ← put_with_dedup_retry exchange policy_id policy
        (if is_success r then pure tt else bootstrap_policies subject policy)
