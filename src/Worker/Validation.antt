-- ===== src/Worker/Validation.antt =====
-- worker.go: `runValidation`.
use go_acme_server.Prelude.{ℕ, ◌+◌, not, ◌&&◌, none, some, ltb, if◌then◌else◌, concat}
use go_acme_server.Status.Account.{AccountStatus, is as account_is}
use go_acme_server.Status.Authorization.{AuthorizationStatus, is as authorization_is}
use go_acme_server.Status.Challenge.{ChallengeStatus, is as challenge_is}
use go_acme_server.Problem.{Problem, new_problem, unauthorized, server_internal}
use go_acme_server.Resource.{Account, Authorization, Challenge, Task, effective_authz_status, after}
use go_acme_server.Memstore.Accounts.{account}
use go_acme_server.Memstore.Authorizations.{authorization, challenge}
use go_acme_server.Server.{
  Server, Run, ValidationRequest, ValidationGrant, final, Validated, granted, failed, now, call,
  ask, on, ◌>>=◌,
}
use go_acme_server.Worker.Retry.{finish, drop_on_not_found, retry, retry_problem}
use go_acme_server.Worker.Grant.{checked}
use go_acme_server.Worker.Commit.{settled_problem, commit}

-- The challenge and the authorization of a validation that failed for good.
abbrev pub refused_challenge : Challenge → Problem → Challenge
refused_challenge ch p = record ch { status = ChallengeStatus.invalid; error = some p }

abbrev pub refused_authz : Authorization → Authorization
refused_authz authz = record authz { status = AuthorizationStatus.invalid }

abbrev pub valid_challenge : Challenge → ℕ → Challenge
valid_challenge ch at = record ch { status = ChallengeStatus.valid; validated = at; error = none }

abbrev pub valid_authz : Authorization → ℕ → ValidationGrant → Authorization
valid_authz authz expires grant = record authz {
  status = AuthorizationStatus.valid;
  expires = expires;
  ca_certificate = grant.ca_certificate;
  grant_expires = grant.expires;
  grant_names = grant.names;
  grant_nf_type = grant.nf_type;
}

abbrev pub request_for : Challenge → Authorization → ValidationRequest
request_for ch authz = record {
  challenge = ch;
  identifier = authz.identifier;
  wildcard = authz.wildcard;
  key_authorization = concat ch.token (concat "." ch.key_thumbprint);
  account_key_thumbprint = ch.key_thumbprint;
  authority_token = ch.authority_token;
}

-- An authorization that expired during the validation overrides its outcome.
abbrev pub outcome_at : Authorization → ℕ → Validated → Validated
outcome_at authz at outcome =
    if not (after authz.expires at)
    then failed (final (new_problem unauthorized "authorization expired during validation"))
    else outcome

module _ (s : Server) where
  -- Loads what a validation task needs; the task is settled where no proof is needed any more.
  unfoldable pub with_targets :
      Task → (Challenge → Authorization → Account → Run (Unit {0})) → Run (Unit {0})
  unfolding drop_on_not_found finish
  with_targets task go = do
    found ← call s (λ c. challenge c task.target_id)
    on found (drop_on_not_found s task) λ ch.
        if not (challenge_is ch.status ChallengeStatus.processing) then finish s task else do
          owned ← call s (λ c. authorization c ch.authorization_id)
          on owned (drop_on_not_found s task) λ authz. do
            owner ← call s (λ c. account c ch.account_id)
            on owner (drop_on_not_found s task) λ acc. go ch authz acc

  -- What follows the answer of the validator.
  unfoldable pub settle : Task → Challenge → Authorization → ℕ → Validated → Run (Unit {0})
  unfolding commit retry retry_problem
  settle task ch authz at (granted grant) =
      commit s task (valid_challenge ch at) (valid_authz authz (at + s.authz_lifetime) grant)
  settle task ch authz at (failed (final p)) =
      commit s task (refused_challenge ch p) (refused_authz authz)
  settle task ch authz at (failed e) =
      if ltb task.attempts s.workers.max_attempts && after authz.expires at
      then retry s task
          (record ch {
            error = some (
                retry_problem e
                  (new_problem server_internal "validation attempt failed and will be retried"));
          })
          at
      else commit s task
          (refused_challenge ch
            (retry_problem e (new_problem server_internal "validation could not be completed")))
          (refused_authz authz)

  unfoldable pub validate_targets : Task → Challenge → Authorization → Account → Run (Unit {0})
  unfolding settle commit checked
  validate_targets task ch authz acc = do
    at ← now s
    let status = effective_authz_status authz at
    if not (authorization_is status AuthorizationStatus.pending)
        then commit s task (refused_challenge ch (settled_problem status)) authz
        else if not (account_is acc.status AccountStatus.valid)
        then commit s task
            (refused_challenge ch (new_problem unauthorized "account is no longer valid"))
            (refused_authz authz)
        else elim (s.validators ch.kind) [
          | none ↦
              commit s task
                (refused_challenge ch (
                  new_problem server_internal "no validator is configured for this challenge type"))
                (refused_authz authz)
          | some validator ↦ do
            outcome ← ask s validator (request_for ch authz)
            at' ← now s
            settle task ch authz at' (outcome_at authz at' (checked s.platform outcome))
        ]

  unfoldable pub run_validation : Task → Run (Unit {0})
  unfolding with_targets validate_targets
  run_validation task = with_targets task (validate_targets task)
