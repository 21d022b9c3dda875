-- ===== src/Memstore/Checks.antt =====
-- memstore/memstore.go: the checks that the methods share, and the queue of tasks.
use go_acme_server.Prelude.{not, String, ◌==◌, is_some, ◌=?◌, next_u64}
use go_acme_server.Exec.{
  Exec, not_found, conflict, revision_mismatch, refused, pure, or_raise, gets, modify, fail_if,
  ◌>>=◌, ◌>>◌,
}
use go_acme_server.Table.{get, put, remove, string_eq}
use go_acme_server.Resource.{Order, Authorization, Challenge, Task}
use go_acme_server.Memstore.{Store}

-- The order exists at the given revision.
unfoldable pub check_order : Order → Exec Store (Unit {0})
check_order order = do
  found ← gets (λ s. get order.id s.orders)
  stored ← or_raise not_found found
  fail_if (not (stored.revision =? order.revision)) revision_mismatch

unfoldable pub check_authorization : Authorization → Exec Store (Unit {0})
check_authorization authz = do
  found ← gets (λ s. get authz.id s.authzs)
  stored ← or_raise not_found found
  fail_if (not (stored.revision =? authz.revision)) revision_mismatch

unfoldable pub check_challenge : Challenge → Exec Store (Unit {0})
check_challenge challenge = do
  found ← gets (λ s. get challenge.id s.challenges)
  stored ← or_raise not_found found
  fail_if (not (stored.revision =? challenge.revision)) revision_mismatch

-- A task can be enqueued.
unfoldable pub check_new_task : Task → Exec Store (Unit {0})
check_new_task task = do
  fail_if (task.id == "") refused
  found ← gets (λ s. get task.id s.tasks)
  fail_if (is_some found) conflict

-- The stored task, when the fence matches.
unfoldable pub check_task : Task → Exec Store Task
check_task task = do
  found ← gets (λ s. get task.id s.tasks)
  stored ← or_raise not_found found
  fail_if (not (stored.fence =? task.fence)) revision_mismatch
  pure stored

-- What `insertTask` stores, and hands back to its caller.
abbrev pub fresh_task : Task → Task
fresh_task task = record task { fence = 0; attempts = 0; lease_until = 0 }

unfoldable pub insert_task : Task → Exec Store Task
insert_task task = do
  modify (λ s. record s { task_sequence = next_u64 s.task_sequence })
  modify (λ s. record s { task_insertion = put task.id s.task_sequence s.task_insertion })
  modify (λ s. record s { tasks = put task.id (fresh_task task) s.tasks })
  pure (fresh_task task)

unfoldable pub remove_task : String → Exec Store (Unit {0})
remove_task id = do
  modify (λ s. record s { tasks = remove id s.tasks })
  modify (λ s. record s { task_insertion = remove id s.task_insertion })
