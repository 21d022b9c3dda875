-- ===== src/Orders/Deactivate.antt =====
-- order.go: the deactivation of an authorization, and the update of an account in account.go.
use go_acme_server.Prelude.{not, if◌then◌else◌, concat}
use go_acme_server.Exec.{StoreError, not_found, conflict, revision_mismatch}
use go_acme_server.Status.Authorization.{
  AuthorizationStatus, is as authorization_is, can_transition, text,
}
use go_acme_server.Problem.{
  Problem, new_problem, with_status, malformed, account_does_not_exist, server_internal,
}
use go_acme_server.Resource.{Time, Account, Authorization, effective_authz_status}
use go_acme_server.Memstore.Accounts.{update_account}
use go_acme_server.Memstore.Authorizations.{update_authorization}
use go_acme_server.Server.{Server, Run, pure, call, on, ◌>>=◌}
use go_acme_server.Answer.{Answer, accepted, refused}

abbrev pub authorization_update_problem : StoreError → Problem
authorization_update_problem revision_mismatch =
    with_status 409
      (new_problem malformed "the authorization changed concurrently, retry the request")
authorization_update_problem _ = new_problem server_internal "authorization update failed"

abbrev pub account_update_problem : StoreError → Problem
account_update_problem conflict =
    with_status 409 (new_problem malformed "another account already uses this key")
account_update_problem revision_mismatch =
    with_status 409 (new_problem malformed "the account changed concurrently, retry the request")
account_update_problem not_found = new_problem account_does_not_exist "account does not exist"
account_update_problem _ = new_problem server_internal "account update failed"

module _ (s : Server) where
  -- The authorization is answered as it then is. A pending or valid one moves to deactivated; a deactivated one is left alone.
  unfoldable pub deactivate_authorization : Authorization → Time → Run (Answer Authorization)
  unfolding can_transition
  deactivate_authorization authz at =
      let status = effective_authz_status authz at in
      if authorization_is status AuthorizationStatus.deactivated
      then pure (accepted authz)
      else if not (can_transition status AuthorizationStatus.deactivated)
      then pure (
          refused (
            new_problem malformed
              (concat "authorization is " (concat (text status) " and cannot be deactivated"))))
      else do
        stored ← call s (λ c.
            update_authorization c (record authz { status = AuthorizationStatus.deactivated }))
        on stored (λ e. pure (refused (authorization_update_problem e))) (λ a. pure (accepted a))

  unfoldable pub update_owned_account : Account → Run (Answer Account)
  update_owned_account acc = do
    stored ← call s (λ c. update_account c acc)
    on stored (λ e. pure (refused (account_update_problem e))) (λ a. pure (accepted a))
