-- ===== src/Worker/Issuance.antt =====
-- issuance.go: the dispatch of an issuance task, up to the call of the CA, and the end of an order
-- that is refused.
use go_acme_server.Prelude.{not, Option, none, some, List, if◌then◌else◌}
use go_acme_server.Exec.{Result}
use go_acme_server.Status.Account.{AccountStatus, is as account_is}
use go_acme_server.Status.Order.{OrderStatus, is as order_is}
use go_acme_server.Problem.{Problem, new_problem, unauthorized}
use go_acme_server.Resource.{Account, Order, Authorization, Task, after}
use go_acme_server.Memstore.Accounts.{account}
use go_acme_server.Memstore.Orders.{order}
use go_acme_server.Memstore.Work.{complete_issuance, begin_issuance}
use go_acme_server.Server.{Server, Run, pure, now, call, on, ◌>>=◌, ◌>>◌}
use go_acme_server.Worker.Retry.{finish, drop_on_not_found, reschedule}
use go_acme_server.Worker.Evidence.{proposed, declined, issuance_authorization}

-- What one dispatch rests on.
pub record Snapshot : Type 0 where
  pub authzs : List Authorization
  pub account : Account
  pub order : Order

module _ (s : Server) where
  -- The task of a commit that failed is released.
  unfoldable pub handle_commit : {A : Type 0} → Task → Result A → Run (Unit {0})
  unfolding reschedule
  handle_commit task result = on result (λ e. do at ← now s; reschedule s task at) (λ _. pure tt)

  unfoldable pub fail_order : Task → Order → Problem → Run (Unit {0})
  unfolding handle_commit
  fail_order task order p = do
    stored ← call s (λ c.
        complete_issuance c task (record order { status = OrderStatus.invalid; error = some p })
          none)
    handle_commit task stored

  -- The order of a task that still needs the CA.
  unfoldable pub issuance_order : Task → Run (Option Order)
  unfolding drop_on_not_found finish
  issuance_order task = do
    found ← call s (λ c. order c task.target_id)
    on found (λ e. do drop_on_not_found s task e; pure none)
        λ o.
          if not (order_is o.status OrderStatus.processing)
          then (do finish s task; pure none)
          else pure (some o)

  unfoldable pub dispatch_snapshot : Task → Order → Run (Option Snapshot)
  unfolding fail_order drop_on_not_found issuance_authorization
  dispatch_snapshot task order = do
    at ← now s
    if not (after order.expires at)
        then (do
          fail_order task order (new_problem unauthorized "order expired before issuance dispatch")
          pure none)
        else do
          found ← call s (λ c. account c order.account_id)
          on found (λ e. do drop_on_not_found s task e; pure none)
              λ acc.
                if not (account_is acc.status AccountStatus.valid)
                then (do
                  fail_order task order (new_problem unauthorized "account is no longer valid")
                  pure none)
                else do
                  read ← issuance_authorization s task.id order at
                  on read (λ e. do drop_on_not_found s task e; pure none)
                      λ proposal. elim proposal [
                        | proposed authzs state ↦ pure (
                            some (record {
                              authzs = authzs;
                              account = acc;
                              order = record order { issuance = some state };
                            }))
                        | declined p ↦ do fail_order task order p; pure none
                      ]

  -- The task is released where the snapshot no longer holds.
  unfoldable pub store_dispatch : Task → Snapshot → Run (Option Order)
  unfolding reschedule
  store_dispatch task snap = do
    stored ← call s (λ c. begin_issuance c task snap.order snap.account snap.authzs)
    on stored (λ e. do at ← now s; reschedule s task at; pure none) (λ o. pure (some o))
