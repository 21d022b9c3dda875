-- ===== src/Renewal.antt =====
-- renewal.go, ids.go: the predecessor that a new order names, and the window of an immediate renewal.
pub mod Window
pub mod Info
use Prim.Native.String.{len}
use go_acme_server.Prelude.{
  ℕ, ◌+◌, ◌-◌, ◌*◌, ◌%◌, Bool, true, false, not, ◌&&◌, ◌||◌, String, ◌==◌, Option, none, some, List,
  [], ◌∷◌, ltb, if◌then◌else◌,
}
use go_acme_server.Text.{cut}
use go_acme_server.Exec.{StoreError, not_found, already_replaced}
use go_acme_server.Problem.{
  Identifier, Problem, new_problem, malformed, unauthorized,
  already_replaced as already_replaced_type,
}
use go_acme_server.Resource.{Time, Account, Validation}
use go_acme_server.Memstore.Certificates.{certificate_by_renewal_id}
use go_acme_server.Server.{Server, Run, pure, call, on, is_not_found, ◌>>=◌}
use go_acme_server.Answer.{Answer, accepted, refused, store_problem}
use go_acme_server.Identifiers.{contains}
use go_acme_server.Requests.{valid_id}

abbrev pub max_renewal_id_length : ℕ
max_renewal_id_length = 2 * 64 + 1

abbrev pub both_valid : Option (String × String) → Bool
both_valid none = false
both_valid (some (aki, serial)) = valid_id aki && valid_id serial

-- `validRenewalID`
unfoldable pub valid_renewal_id : String → Bool
unfolding cut
valid_renewal_id s = if ltb max_renewal_id_length (len s) then false else both_valid (cut 46 s)

-- `sharesIdentifier`
unfoldable pub shares_identifier : List Validation → List Identifier → Bool
shares_identifier [] identifiers = false
shares_identifier (v ∷ vs) identifiers =
    contains v.identifier identifiers || shares_identifier vs identifiers

-- `replacementProblem`
abbrev pub replacement_problem : StoreError → Option Problem
replacement_problem already_replaced =
    some (
      new_problem already_replaced_type
        "the certificate is already being replaced by another order")
replacement_problem not_found = some (new_problem malformed "replaces names an unknown certificate")
replacement_problem _ = none

-- `t.Truncate(time.Second)`
abbrev pub truncate_second : Time → Time
truncate_second t = t - t % 1000000000

-- `ImmediateRenewal`, for a `now` past the first minute.
unfoldable pub immediate_renewal : Time → Time → Time × Time
immediate_renewal since now =
    let end = truncate_second now in
    let start = truncate_second since in
    if not (ltb start end) then (end - 60 * 1000000000, end) else (start, end)

module _ (s : Server) where
  -- `checkReplaces`
  unfoldable pub check_replaces : Account → List Identifier → String → Run (Answer String)
  unfolding valid_renewal_id shares_identifier
  check_replaces account identifiers replaces =
      if replaces == "" || not s.config.renewal
      then pure (accepted "")
      else if not (valid_renewal_id replaces)
      then pure (refused (new_problem malformed "replaces is not a certificate identifier"))
      else do
        found ← call s (λ c. certificate_by_renewal_id c replaces)
        on found
            (λ e.
              if is_not_found e
              then pure (refused (new_problem malformed "replaces names an unknown certificate"))
              else pure (refused (store_problem e "certificate")))
            λ cert.
              if not (cert.account_id == account.id)
              then pure (
                  refused
                    (new_problem unauthorized "replaces names a certificate of another account"))
              else if not (shares_identifier cert.validations identifiers)
              then pure (
                  refused (
                    new_problem malformed
                      "the order shares no identifier with the certificate it replaces"))
              else pure (accepted replaces)
