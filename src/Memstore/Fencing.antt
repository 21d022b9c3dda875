-- ===== src/Memstore/Fencing.antt =====
-- memstore/memstore.go: a worker that lost its lease cannot commit.
use go_acme_server.Prelude.{◌≡◌, ◌≢◌, Option, none, some, arith}
use go_acme_server.Exec.{err, revision_mismatch, ◌>>=◌}
use go_acme_server.Table.{get, string_eq}
use go_acme_server.Resource.{Account, Order, Authorization, Challenge, Certificate, Task}
use go_acme_server.Memstore.{Store}
use go_acme_server.Memstore.Checks.{check_task}
use go_acme_server.Memstore.Tasks.{reschedule_task, finish_task}
use go_acme_server.Memstore.Work.{
  retry_validation, complete_validation, complete_issuance, begin_issuance,
}
use go_acme_server.Prelude.{List}

module _ (s : Store) (task stored : Task) (found : get task.id s.tasks ≡ some stored)
    (fenced : stored.fence ≢ task.fence) where
  check_task-fenced : check_task task s ≡ (err revision_mismatch, s)
  unfolding check_task ◌>>=◌
  check_task-fenced = ground arith

  -- While the store holds the task at another fence than the worker's copy, each of the six
  -- methods that a worker commits with returns a revision mismatch and writes nothing.
  pub fenced_out :
      (challenge : Challenge) (authz : Authorization) (order : Order) (account : Account)
      (authzs : List Authorization) (cert : Option Certificate)
      → (reschedule_task none task s ≡ (err revision_mismatch, s))
        × (finish_task none task s ≡ (err revision_mismatch, s))
        × (retry_validation none task challenge s ≡ (err revision_mismatch, s))
        × (complete_validation none task challenge authz order s ≡ (err revision_mismatch, s))
        × (begin_issuance none task order account authzs s ≡ (err revision_mismatch, s))
        × (complete_issuance none task order cert s ≡ (err revision_mismatch, s))
  unfolding ◌>>=◌ reschedule_task finish_task retry_validation complete_validation begin_issuance
      complete_issuance
  fenced_out challenge authz order account authzs cert = (
    rw check_task-fenced,
    rw check_task-fenced,
    rw check_task-fenced,
    rw check_task-fenced,
    rw check_task-fenced,
    rw check_task-fenced,
  )
