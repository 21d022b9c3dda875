-- ===== src/Worker/Commit.antt =====
-- worker.go: `completeValidation`.
use go_acme_server.Prelude.{ℕ, zero, suc, not, ◌&&◌, some, if◌then◌else◌, concat}
use go_acme_server.Status.Order.{OrderStatus, is as order_is}
use go_acme_server.Status.Authorization.{AuthorizationStatus, is as authorization_is, text}
use go_acme_server.Status.Challenge.{ChallengeStatus}
use go_acme_server.Problem.{Problem, new_problem, malformed}
use go_acme_server.Resource.{Order, Authorization, Challenge, Task, effective_authz_status}
use go_acme_server.Memstore.Orders.{order}
use go_acme_server.Memstore.Authorizations.{authorization}
use go_acme_server.Memstore.Work.{complete_validation}
use go_acme_server.Server.{Server, Run, pure, now, call, on, is_mismatch, ◌>>=◌}
use go_acme_server.Worker.Retry.{reschedule, drop_on_not_found}
use go_acme_server.Worker.Orders.{derive_order_status}

-- `Problemf(ErrorMalformed, "authorization was %s before validation", status)`
abbrev pub settled_problem : AuthorizationStatus → Problem
settled_problem status =
    new_problem malformed (concat "authorization was " (concat (text status) " before validation"))

-- The challenge of an authorization that left pending meanwhile.
abbrev pub settled : Challenge → AuthorizationStatus → Challenge
settled ch status = record ch {
  status = ChallengeStatus.invalid;
  validated = 0;
  error = some (settled_problem status);
}

-- The order takes the derived status only from pending.
abbrev pub advanced : Order → OrderStatus → Order
advanced order status =
    if order_is order.status OrderStatus.pending && not (order_is status OrderStatus.pending)
    then record order { status = status }
    else order

module _ (s : Server) where
  unfoldable pub put_back : Task → Run (Unit {0})
  unfolding reschedule
  put_back task = do at ← now s; reschedule s task at

  -- `for range 3`, with the rounds left.
  unfoldable pub commit_loop : ℕ → Task → Challenge → Authorization → Run (Unit {0})
  unfolding drop_on_not_found derive_order_status put_back
  commit_loop zero task ch authz = put_back task
  commit_loop (suc rounds) task ch authz = do
    found ← call s (λ c. order c authz.order_id)
    on found (drop_on_not_found s task) λ o. do
      derived ← derive_order_status s o (some authz)
      on derived (λ e. put_back task)
          λ status. do
            stored ← call s (λ c. complete_validation c task ch authz (advanced o status))
            on stored
                (λ e. if not (is_mismatch e) then put_back task else do
                  reloaded ← call s (λ c. authorization c authz.id)
                  on reloaded (drop_on_not_found s task) λ current. do
                    at ← now s
                    let status' = effective_authz_status current at
                    if not (authorization_is status' AuthorizationStatus.pending)
                        then commit_loop rounds task (settled ch status') current
                        else commit_loop rounds task ch
                            (record authz { revision = current.revision }))
                (λ _. pure tt)

  unfoldable pub commit : Task → Challenge → Authorization → Run (Unit {0})
  unfolding commit_loop
  commit task ch authz = commit_loop 3 task ch authz
