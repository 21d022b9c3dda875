-- ===== src/Memstore/Tasks.antt =====
-- memstore/memstore.go: the task queue. A loop over the map goes through the entries of the table.
use go_acme_server.Prelude.{
  ℕ, suc, ◌+◌, Bool, true, false, not, ◌&&◌, ◌||◌, String, ◌==◌, Option, none, some, ◌=?◌, ltb,
  next_u64, List, [], ◌∷◌, if◌then◌else◌,
}
use go_acme_server.Exec.{Ctx, Exec, not_found, pure, or_raise, gets, modify, check_ctx, ◌>>=◌, ◌>>◌}
use go_acme_server.Table.{Table, get, put, string_eq}
use go_acme_server.Resource.{Task, TaskKind, validate, after, before, is_zero}
use go_acme_server.Memstore.{Store}
use go_acme_server.Memstore.Checks.{check_task, remove_task}

abbrev pub runnable : ℕ → Task → Bool
runnable now t =
    not (after t.run_at now || (not (is_zero t.lease_until) && after t.lease_until now))

-- A missing record of the insertion order reads as 0.
abbrev pub inserted : Table String ℕ → String → ℕ
inserted order id = elim (get id order) [ none ↦ 0 | some n ↦ n ]

abbrev pub precedes : Table String ℕ → Task → Task → Bool
precedes order t best =
    before t.run_at best.run_at
    || (t.run_at =? best.run_at && ltb (inserted order t.id) (inserted order best.id))

-- The better of the task at hand and the best so far, each with its key.
abbrev pub better : Table String ℕ → String × Task → Option (String × Task) → Option (String × Task)
better order e none = some e
better order (k, t) (some (j, best)) = if precedes order t best then some (k, t) else some (j, best)

unfoldable pub best_task :
    Table String ℕ → ℕ → Option (String × Task) → List (String × Task) → Option (String × Task)
best_task order now best [] = best
best_task order now best ((k, t) ∷ rest) =
    best_task order now (if runnable now t then better order (k, t) best else best) rest

abbrev pub leased_to : Task → ℕ → Task
leased_to t lease_until = record t {
  lease_until = lease_until;
  fence = next_u64 t.fence;
  attempts = t.attempts + 1;
}

-- Leases the runnable task with the earliest time.
unfoldable pub claim_task : Ctx → ℕ → ℕ → Exec Store Task
unfolding best_task
claim_task ctx now lease_until = do
  check_ctx ctx
  best ← gets (λ s. best_task s.task_insertion now none s.tasks.entries)
  (k, t) ← or_raise not_found best
  modify (λ s. record s { tasks = put k (leased_to t lease_until) s.tasks })
  pure (leased_to t lease_until)

abbrev pub released : Task → ℕ → Task
released stored run_at = record stored { run_at = run_at; lease_until = 0 }

-- `stored` is the task in the map: the source writes through the pointer.
abbrev pub release : Task → Task → Store → Store
release task stored s = record s { tasks = put task.id (released stored task.run_at) s.tasks }

unfoldable pub reschedule_task : Ctx → Task → Exec Store Task
unfolding check_task
reschedule_task ctx task = do
  check_ctx ctx
  stored ← check_task task
  modify (release task stored)
  pure (record task { lease_until = 0 })

unfoldable pub finish_task : Ctx → Task → Exec Store (Unit {0})
unfolding check_task remove_task
finish_task ctx task = do check_ctx ctx; check_task task; remove_task task.id

-- The number of tasks that pass a test.
unfoldable pub count : (Task → Bool) → List (String × Task) → ℕ
count p [] = 0
count p ((k, t) ∷ rest) = let n = count p rest in if p t then suc n else n

unfoldable pub pending_tasks : Ctx → ℕ → Exec Store ℕ
unfolding count
pending_tasks ctx before = do
  check_ctx ctx
  gets (λ s.
      count
        (λ t.
          not (after t.run_at before)
          && (is_zero t.lease_until || not (after t.lease_until before)))
        s.tasks.entries)

unfoldable pub leased_tasks : Ctx → ℕ → Exec Store ℕ
unfolding count
leased_tasks ctx now = do
  check_ctx ctx
  gets (λ s. count (λ t. after t.lease_until now) s.tasks.entries)

abbrev pub is_validation : TaskKind → Bool
is_validation validate = true
is_validation _ = false

unfoldable pub account_validations : Ctx → String → Exec Store ℕ
unfolding count
account_validations ctx account_id = do
  check_ctx ctx
  gets (λ s. count (λ t. is_validation t.kind && t.account_id == account_id) s.tasks.entries)
