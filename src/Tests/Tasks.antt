-- ===== src/Tests/Tasks.antt =====
-- The task queue at two tasks, and the commits of a task.
use go_acme_server.Prelude.{◌≡◌, ◌≢◌, refl, arith, true, false, String, eq_iff, none, some, [], ◌∷◌}
use go_acme_server.Exec.{ok, err, revision_mismatch, not_found, ◌>>=◌}
use go_acme_server.Exec.Atomic.{IsAtomic}
use go_acme_server.Table.{get, put, remove, string_eq, get-put, empty, get-empty}
use go_acme_server.Table.Entries.{put-IsMap}
use go_acme_server.Resource.{Order, Authorization, Challenge, Task}
use go_acme_server.Status.Order.{OrderStatus}
use go_acme_server.Status.Authorization.{AuthorizationStatus}
use go_acme_server.Status.Challenge.{ChallengeStatus}
use go_acme_server.Memstore.{Store, new_store}
use go_acme_server.Memstore.Accounts.{create_account, update_account}
use go_acme_server.Memstore.Orders.{create_order}
use go_acme_server.Memstore.Authorizations.{update_authorization}
use go_acme_server.Memstore.Certificates.{update_certificate}
use go_acme_server.Memstore.Checks.{check_task, check_order, check_authorization, check_challenge}
use go_acme_server.Memstore.Tasks.{
  runnable, precedes, best_task, leased_to, claim_task, reschedule_task, finish_task,
}
use go_acme_server.Memstore.Work.{
  accept_challenge, finalize_order, retry_validation, complete_validation, complete_issuance,
  begin_issuance, record_dispatch, check_proposed, check_dispatch_authzs, create_certificate,
}
use go_acme_server.Memstore.Atomicity.{methods-IsAtomic}
use go_acme_server.Memstore.Fencing.{fenced_out}
use go_acme_server.Memstore.Once.{complete_validation-once, complete_issuance-once}
use go_acme_server.Memstore.Dispatch.{begin_issuance_sound, Dispatched}
use go_acme_server.Memstore.Scheduling.{TasksInv, claim_task-earliest, claim_task-exclusive}
use go_acme_server.Tests.Data.{
  alice, an_order, an_authz, a_challenge, a_certificate, a_task, a_state,
}

abbrev later_task : Task
later_task = record a_task { id = "t2"; run_at = 7 }

abbrev two_tasks : Store
two_tasks = record new_store {
  tasks = put "t1" a_task (put "t2" later_task new_store.tasks);
  task_insertion = put "t1" 0 (put "t2" 1 new_store.task_insertion);
}

two_tasks-TasksInv : TasksInv two_tasks
two_tasks-TasksInv = record {
  is_map = put-IsMap "t1" a_task (put "t2" later_task empty) (put-IsMap "t2" later_task empty tt);
  keyed = λ k u p. ground (
    arith,
    get-put k "t1" a_task (put "t2" later_task empty),
    get-put k "t2" later_task empty,
    get-empty {V = Task} k,
    eq_iff "t1" k,
    eq_iff "t2" k,
  );
}

claim_task-earliest_example :
    (t : Task) × (claim_task none 9 20 two_tasks ≡ (
      ok (leased_to t 20),
      record two_tasks { tasks = put t.id (leased_to t 20) two_tasks.tasks },
    ))
    × (get t.id two_tasks.tasks ≡ some t)
    × (runnable 9 t ≡ true)
    × (precedes two_tasks.task_insertion later_task t ≡ false)
unfolding get put
claim_task-earliest_example =
    claim_task-earliest two_tasks two_tasks-TasksInv 9 20 "t2" later_task refl refl

abbrev one_leased : Store
one_leased = (claim_task none 9 20 two_tasks).1

claim_task-exclusive_example : ◌≢◌ {A = String} "t2" "t1"
unfolding claim_task best_task get put ◌>>=◌
claim_task-exclusive_example =
    claim_task-exclusive two_tasks one_leased (claim_task none 15 30 one_leased).1 9 20 15 30
      (leased_to a_task 20) (leased_to later_task 30) two_tasks-TasksInv refl refl (omega arith)

fenced_out_example :
    (reschedule_task none (record a_task { fence = 7 }) two_tasks
      ≡ (err revision_mismatch, two_tasks))
    × (finish_task none (record a_task { fence = 7 }) two_tasks
        ≡ (err revision_mismatch, two_tasks))
    × (retry_validation none (record a_task { fence = 7 }) a_challenge two_tasks
        ≡ (err revision_mismatch, two_tasks))
    × (complete_validation none
          (record a_task { fence = 7 })
          a_challenge
          an_authz
          an_order
          two_tasks
        ≡ (err revision_mismatch, two_tasks))
    × (begin_issuance none (record a_task { fence = 7 }) an_order alice [] two_tasks
        ≡ (err revision_mismatch, two_tasks))
    × (complete_issuance none (record a_task { fence = 7 }) an_order none two_tasks
        ≡ (err revision_mismatch, two_tasks))
unfolding get put
fenced_out_example =
    fenced_out two_tasks (record a_task { fence = 7 }) a_task refl (ground arith) a_challenge
      an_authz an_order alice [] none

methods-IsAtomic_example :
    IsAtomic (create_account none alice)
    × IsAtomic (update_account none alice)
    × IsAtomic (create_order none an_order (an_authz ∷ []) (a_challenge ∷ []))
    × IsAtomic (update_authorization none an_authz)
    × IsAtomic (update_certificate none a_certificate)
    × IsAtomic (accept_challenge none a_challenge a_task)
    × IsAtomic (finalize_order none an_order a_task)
    × IsAtomic (begin_issuance none a_task an_order alice (an_authz ∷ []))
    × IsAtomic (claim_task none 9 20)
    × IsAtomic (reschedule_task none a_task)
    × IsAtomic (finish_task none a_task)
    × IsAtomic (retry_validation none a_task a_challenge)
    × IsAtomic (complete_validation none a_task a_challenge an_authz an_order)
    × IsAtomic (complete_issuance none a_task an_order (some a_certificate))
methods-IsAtomic_example =
    methods-IsAtomic none alice an_order (an_authz ∷ []) (a_challenge ∷ []) an_authz a_challenge
      a_task a_certificate (some a_certificate) 9 20

-- A validation and an issuance under way.
abbrev validating : Store
validating = record two_tasks {
  orders = put "o1" an_order new_store.orders;
  authzs = put "z1" an_authz new_store.authzs;
  challenges = put "h1" a_challenge new_store.challenges;
}

abbrev valid_authz : Authorization
valid_authz = record an_authz { status = AuthorizationStatus.valid }

abbrev valid_challenge : Challenge
valid_challenge = record a_challenge { status = ChallengeStatus.valid; validated = 9 }

complete_validation-once_example :
    (complete_validation none a_task a_challenge an_authz an_order
        (complete_validation none a_task valid_challenge valid_authz an_order validating).1
      ≡ (
        err not_found,
        (complete_validation none a_task valid_challenge valid_authz an_order validating).1,
      ))
    × (reschedule_task none a_task
          (complete_validation none a_task valid_challenge valid_authz an_order validating).1
        ≡ (
          err not_found,
          (complete_validation none a_task valid_challenge valid_authz an_order validating).1,
        ))
unfolding complete_validation check_task check_order check_authorization check_challenge get put
    remove ◌>>=◌
complete_validation-once_example =
    complete_validation-once none validating
      (complete_validation none a_task valid_challenge valid_authz an_order validating).1 a_task
      valid_challenge (record valid_challenge { revision = 2 }) a_challenge valid_authz
      (record valid_authz { revision = 2 }) an_authz an_order (record an_order { revision = 2 })
      an_order refl

abbrev processing_order : Order
processing_order = record an_order { status = OrderStatus.processing }

abbrev issuing : Store
issuing = record two_tasks {
  accounts = put "a1" alice new_store.accounts;
  orders = put "o1" processing_order new_store.orders;
  authzs = put "z1" valid_authz new_store.authzs;
}

abbrev invalid_order : Order
invalid_order = record an_order { status = OrderStatus.invalid }

complete_issuance-once_example :
    (complete_issuance none a_task an_order none
        (complete_issuance none a_task invalid_order none issuing).1
      ≡ (err not_found, (complete_issuance none a_task invalid_order none issuing).1))
    × (reschedule_task none a_task (complete_issuance none a_task invalid_order none issuing).1
        ≡ (err not_found, (complete_issuance none a_task invalid_order none issuing).1))
unfolding complete_issuance create_certificate check_task check_order get put remove ◌>>=◌
complete_issuance-once_example =
    complete_issuance-once none issuing (complete_issuance none a_task invalid_order none issuing).1
      a_task invalid_order (record invalid_order { revision = 2 }) an_order none none none
      a_challenge an_authz refl

abbrev dispatched_order : Order
dispatched_order = record processing_order { issuance = some a_state }

begin_issuance_sound_example :
    Dispatched issuing
      (begin_issuance none a_task dispatched_order alice (valid_authz ∷ []) issuing).1
      a_task
      dispatched_order
      alice
      (valid_authz ∷ [])
unfolding begin_issuance record_dispatch check_proposed check_dispatch_authzs check_task check_order
    check_authorization get put ◌>>=◌
begin_issuance_sound_example =
    begin_issuance_sound none issuing
      (begin_issuance none a_task dispatched_order alice (valid_authz ∷ []) issuing).1 a_task
      dispatched_order (record dispatched_order { revision = 2 }) alice (valid_authz ∷ []) refl
