-- ===== src/Memstore/Once.antt =====
-- memstore/memstore.go: a task is committed once.
use go_acme_server.Prelude.{◌≡◌, refl, ◌∙◌, ap, eq_refl, String, Option, none, some, arith}
use go_acme_server.Exec.{Ctx, ok, err, not_found, ◌>>=◌}
use go_acme_server.Table.{get, remove, get-remove, string_eq}
use go_acme_server.Resource.{Order, Authorization, Challenge, Certificate, Task}
use go_acme_server.Memstore.{Store}
use go_acme_server.Memstore.Checks.{check_task}
use go_acme_server.Memstore.Tasks.{reschedule_task, finish_task}
use go_acme_server.Memstore.Work.{complete_validation, complete_issuance, create_certificate}

get-remove_self : (k : String) (s : Store) → get k (remove k s.tasks) ≡ none
get-remove_self k s = ground (arith, get-remove k k s.tasks, eq_refl k)

module _ (s : Store) (task : Task) (gone : get task.id s.tasks ≡ none) where
  check_task-gone : check_task task s ≡ (err not_found, s)
  unfolding check_task ◌>>=◌
  check_task-gone = rw gone

  gone_refuses :
      (challenge : Challenge) (authz : Authorization) (order : Order) (cert : Option Certificate)
      → (reschedule_task none task s ≡ (err not_found, s))
        × (complete_validation none task challenge authz order s ≡ (err not_found, s))
        × (complete_issuance none task order cert s ≡ (err not_found, s))
  unfolding ◌>>=◌ reschedule_task complete_validation complete_issuance
  gone_refuses challenge authz order cert =
      (rw check_task-gone, rw check_task-gone, rw check_task-gone)

finish_task-gone :
    (ctx : Ctx) (s t : Store) (task : Task)
    → finish_task ctx task s ≡ (ok tt, t)
    → t.tasks ≡ remove task.id s.tasks
unfolding finish_task ◌>>=◌
finish_task-gone ctx s t task h = ground arith

complete_validation-gone :
    (ctx : Ctx) (s t : Store) (task : Task) (c c' : Challenge) (a a' : Authorization) (o o' : Order)
    → complete_validation ctx task c a o s ≡ (ok (c', a', o'), t)
    → t.tasks ≡ remove task.id s.tasks
unfolding complete_validation ◌>>=◌
complete_validation-gone ctx s t task c c' a a' o o' h = ground arith

pub tasks-create_certificate :
    (s : Store) (cert : Option Certificate) → (create_certificate cert s).1.tasks ≡ s.tasks
unfolding create_certificate ◌>>=◌
tasks-create_certificate s none = refl
tasks-create_certificate s (some cert) = ground arith

complete_issuance-gone :
    (ctx : Ctx) (s t : Store) (task : Task) (o o' : Order) (cert cert' : Option Certificate)
    → complete_issuance ctx task o cert s ≡ (ok (o', cert'), t)
    → t.tasks ≡ remove task.id s.tasks
unfolding complete_issuance ◌>>=◌
complete_issuance-gone ctx s t task o o' cert cert' h =
    ground (arith, tasks-create_certificate s cert)

-- A validation result is stored once: after it, the same task can neither store another result,
-- whatever the result, nor be put back, and the store refuses both with not found.
pub complete_validation-once :
    (ctx : Ctx) (s t : Store) (task : Task) (c c' d : Challenge) (a a' b : Authorization)
    (o o' p : Order)
    → complete_validation ctx task c a o s ≡ (ok (c', a', o'), t)
    → (complete_validation none task d b p t ≡ (err not_found, t))
      × (reschedule_task none task t ≡ (err not_found, t))
complete_validation-once ctx s t task c c' d a a' b o o' p h =
    let refused =
      gone_refuses t task
        (ap (get task.id) (complete_validation-gone ctx s t task c c' a a' o o' h)
          ∙ get-remove_self task.id s)
        d b p none in
    (refused.1, refused.0)

-- An issuance result is stored once: after it, the same task can neither store another result, with
-- a certificate or without, nor be put back.
pub complete_issuance-once :
    (ctx : Ctx) (s t : Store) (task : Task) (o o' p : Order) (cert cert' again : Option Certificate)
    (d : Challenge) (b : Authorization)
    → complete_issuance ctx task o cert s ≡ (ok (o', cert'), t)
    → (complete_issuance none task p again t ≡ (err not_found, t))
      × (reschedule_task none task t ≡ (err not_found, t))
complete_issuance-once ctx s t task o o' p cert cert' again d b h =
    let refused =
      gone_refuses t task
        (ap (get task.id) (complete_issuance-gone ctx s t task o o' cert cert' h)
          ∙ get-remove_self task.id s)
        d b p again in
    (refused.2, refused.0)
