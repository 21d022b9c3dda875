-- ===== src/Memstore/Atomicity.antt =====
-- memstore/memstore.go: a method that returns an error has written nothing.
use go_acme_server.Prelude.{
  ℕ, String, Bool, true, false, if◌then◌else◌, Option, none, some, List, [], ◌∷◌,
}
use go_acme_server.Exec.{Ctx, Exec, pure}
use go_acme_server.Exec.Atomic.{
  Reads, Succeeds, IsAtomic, IsAtomic-bind, IsAtomic-bind_writes, IsAtomic-of_Succeeds, reads_rules,
  writes_rules, Reads-bind, Reads-fail_if, Succeeds-bind, Succeeds-modify, Succeeds-pure,
}
use go_acme_server.Resource.{
  Account, Order, IssuanceState, Authorization, Challenge, Certificate, Task,
}
use go_acme_server.Memstore.{Store}
use go_acme_server.Memstore.Checks.{
  check_order, check_authorization, check_challenge, check_new_task, check_task, insert_task,
  remove_task,
}
use go_acme_server.Memstore.Accounts.{create_account, update_account}
use go_acme_server.Memstore.Orders.{
  claim_replacement, insert_authz, insert_authzs, insert_challenges, insert_order, create_order,
}
use go_acme_server.Memstore.Authorizations.{update_authorization}
use go_acme_server.Memstore.Certificates.{update_certificate}
use go_acme_server.Memstore.Tasks.{claim_task, reschedule_task, finish_task}
use go_acme_server.Memstore.Work.{
  accept_challenge, finalize_order, retry_validation, complete_validation, create_certificate,
  complete_issuance, check_proposed, check_dispatch_authzs, record_dispatch, begin_issuance,
}

Reads-check_order : (o : Order) → Reads (check_order o)
unfolding check_order
Reads-check_order o = search reads_rules

Reads-check_authorization : (a : Authorization) → Reads (check_authorization a)
unfolding check_authorization
Reads-check_authorization a = search reads_rules

Reads-check_challenge : (c : Challenge) → Reads (check_challenge c)
unfolding check_challenge
Reads-check_challenge c = search reads_rules

Reads-check_new_task : (t : Task) → Reads (check_new_task t)
unfolding check_new_task
Reads-check_new_task t = search reads_rules

Reads-check_task : (t : Task) → Reads (check_task t)
unfolding check_task
Reads-check_task t = search reads_rules

Reads-check_dispatch_authzs :
    (state : IssuanceState) (authzs : List Authorization) (ids : List String)
    → Reads (check_dispatch_authzs state authzs ids)
unfolding check_dispatch_authzs
Reads-check_dispatch_authzs state [] ids = search reads_rules
Reads-check_dispatch_authzs state (a ∷ more) [] = search reads_rules
Reads-check_dispatch_authzs state (a ∷ more) (id ∷ ids) =
    Reads-bind _ _ (Reads-check_authorization a)
      λ _. Reads-bind _ _ (Reads-fail_if _ _) λ _. Reads-check_dispatch_authzs state more ids

Reads-check_proposed :
    (o : Order) (state : Option IssuanceState) (authzs : List Authorization)
    → Reads (check_proposed o state authzs)
Reads-check_proposed o none authzs = search reads_rules
Reads-check_proposed o (some state) authzs = search (reads_rules, Reads-check_dispatch_authzs)

ruleset checks = (
  reads_rules, Reads-check_order, Reads-check_authorization, Reads-check_challenge,
  Reads-check_new_task, Reads-check_task, Reads-check_proposed,
)

Succeeds-insert_task : (t : Task) → Succeeds (insert_task t)
unfolding insert_task
Succeeds-insert_task t = search writes_rules

Succeeds-remove_task : (id : String) → Succeeds (remove_task id)
unfolding remove_task
Succeeds-remove_task id = search writes_rules

Succeeds-insert_authz : (a : Authorization) → Succeeds (insert_authz a)
unfolding insert_authz
Succeeds-insert_authz a = search writes_rules

Succeeds-insert_authzs : (authzs : List Authorization) → Succeeds (insert_authzs authzs)
unfolding insert_authzs
Succeeds-insert_authzs [] = search writes_rules
Succeeds-insert_authzs (a ∷ more) =
    Succeeds-bind _ _ (Succeeds-insert_authz a)
      λ _. Succeeds-bind _ _ (Succeeds-insert_authzs more) λ _. Succeeds-pure _

Succeeds-insert_challenges : (challenges : List Challenge) → Succeeds (insert_challenges challenges)
unfolding insert_challenges
Succeeds-insert_challenges [] = search writes_rules
Succeeds-insert_challenges (c ∷ more) =
    Succeeds-bind _ _ (Succeeds-modify _)
      λ _. Succeeds-bind _ _ (Succeeds-insert_challenges more) λ _. Succeeds-pure _

Succeeds-insert_order : (o : Order) → Succeeds (insert_order o)
unfolding insert_order
Succeeds-insert_order o = search writes_rules

ruleset writes = (
  writes_rules, Succeeds-insert_task, Succeeds-remove_task, Succeeds-insert_authzs,
  Succeeds-insert_challenges, Succeeds-insert_order,
)

ruleset atomic_rules = (IsAtomic-bind, IsAtomic-of_Succeeds, checks, writes)

pub create_account-IsAtomic : (ctx : Ctx) (a : Account) → IsAtomic (create_account ctx a)
unfolding create_account
create_account-IsAtomic ctx a = search atomic_rules depth 30

pub update_account-IsAtomic : (ctx : Ctx) (a : Account) → IsAtomic (update_account ctx a)
unfolding update_account
update_account-IsAtomic ctx a = search atomic_rules depth 30

claim_replacement-IsAtomic : (o : Order) → IsAtomic (claim_replacement o)
unfolding claim_replacement
claim_replacement-IsAtomic o = search atomic_rules depth 30

IsAtomic-if : (b : Bool) (m : Exec Store Unit) → IsAtomic m → IsAtomic (if b then pure tt else m)
IsAtomic-if true m h = IsAtomic-of_Succeeds (Succeeds-pure tt)
IsAtomic-if false m h = h

create_order-IsAtomic :
    (ctx : Ctx) (o : Order) (authzs : List Authorization) (challenges : List Challenge)
    → IsAtomic (create_order ctx o authzs challenges)
unfolding create_order
create_order-IsAtomic ctx o authzs challenges =
    search (atomic_rules, IsAtomic-bind_writes, IsAtomic-if, claim_replacement-IsAtomic) depth 30

update_authorization-IsAtomic :
    (ctx : Ctx) (a : Authorization) → IsAtomic (update_authorization ctx a)
unfolding update_authorization
update_authorization-IsAtomic ctx a = search atomic_rules depth 30

update_certificate-IsAtomic : (ctx : Ctx) (c : Certificate) → IsAtomic (update_certificate ctx c)
unfolding update_certificate
update_certificate-IsAtomic ctx c = search atomic_rules depth 30

claim_task-IsAtomic : (ctx : Ctx) (now until : ℕ) → IsAtomic (claim_task ctx now until)
unfolding claim_task
claim_task-IsAtomic ctx now until = search atomic_rules depth 30

reschedule_task-IsAtomic : (ctx : Ctx) (t : Task) → IsAtomic (reschedule_task ctx t)
unfolding reschedule_task
reschedule_task-IsAtomic ctx t = search atomic_rules depth 30

finish_task-IsAtomic : (ctx : Ctx) (t : Task) → IsAtomic (finish_task ctx t)
unfolding finish_task
finish_task-IsAtomic ctx t = search atomic_rules depth 30

accept_challenge-IsAtomic :
    (ctx : Ctx) (c : Challenge) (t : Task) → IsAtomic (accept_challenge ctx c t)
unfolding accept_challenge
accept_challenge-IsAtomic ctx c t = search atomic_rules depth 30

finalize_order-IsAtomic : (ctx : Ctx) (o : Order) (t : Task) → IsAtomic (finalize_order ctx o t)
unfolding finalize_order
finalize_order-IsAtomic ctx o t = search atomic_rules depth 30

retry_validation-IsAtomic :
    (ctx : Ctx) (t : Task) (c : Challenge) → IsAtomic (retry_validation ctx t c)
unfolding retry_validation
retry_validation-IsAtomic ctx t c = search atomic_rules depth 30

complete_validation-IsAtomic :
    (ctx : Ctx) (t : Task) (c : Challenge) (a : Authorization) (o : Order)
    → IsAtomic (complete_validation ctx t c a o)
unfolding complete_validation
complete_validation-IsAtomic ctx t c a o = search atomic_rules depth 30

create_certificate-IsAtomic : (cert : Option Certificate) → IsAtomic (create_certificate cert)
unfolding create_certificate
create_certificate-IsAtomic none = search atomic_rules depth 30
create_certificate-IsAtomic (some cert) = search atomic_rules depth 30

complete_issuance-IsAtomic :
    (ctx : Ctx) (t : Task) (o : Order) (cert : Option Certificate)
    → IsAtomic (complete_issuance ctx t o cert)
unfolding complete_issuance
complete_issuance-IsAtomic ctx t o cert =
    search (atomic_rules, IsAtomic-bind_writes, create_certificate-IsAtomic) depth 30

record_dispatch-IsAtomic :
    (o : Order) (a : Account) (authzs : List Authorization) → IsAtomic (record_dispatch o a authzs)
unfolding record_dispatch
record_dispatch-IsAtomic o a authzs = search atomic_rules depth 30

begin_issuance-IsAtomic :
    (ctx : Ctx) (t : Task) (o : Order) (a : Account) (authzs : List Authorization)
    → IsAtomic (begin_issuance ctx t o a authzs)
unfolding begin_issuance
begin_issuance-IsAtomic ctx t o a authzs = search (atomic_rules, record_dispatch-IsAtomic) depth 30

-- Every method of the store that can write is atomic: when it returns an error, whatever the
-- arguments and the state, the state is the one from before the call.
pub methods-IsAtomic :
    (ctx : Ctx) (account : Account) (order : Order) (authzs : List Authorization)
    (challenges : List Challenge) (authz : Authorization) (challenge : Challenge) (task : Task)
    (cert : Certificate) (issued : Option Certificate) (now until : ℕ)
    → IsAtomic (create_account ctx account)
      × IsAtomic (update_account ctx account)
      × IsAtomic (create_order ctx order authzs challenges)
      × IsAtomic (update_authorization ctx authz)
      × IsAtomic (update_certificate ctx cert)
      × IsAtomic (accept_challenge ctx challenge task)
      × IsAtomic (finalize_order ctx order task)
      × IsAtomic (begin_issuance ctx task order account authzs)
      × IsAtomic (claim_task ctx now until)
      × IsAtomic (reschedule_task ctx task)
      × IsAtomic (finish_task ctx task)
      × IsAtomic (retry_validation ctx task challenge)
      × IsAtomic (complete_validation ctx task challenge authz order)
      × IsAtomic (complete_issuance ctx task order issued)
methods-IsAtomic ctx account order authzs challenges authz challenge task cert issued now until = (
  create_account-IsAtomic ctx account,
  update_account-IsAtomic ctx account,
  create_order-IsAtomic ctx order authzs challenges,
  update_authorization-IsAtomic ctx authz,
  update_certificate-IsAtomic ctx cert,
  accept_challenge-IsAtomic ctx challenge task,
  finalize_order-IsAtomic ctx order task,
  begin_issuance-IsAtomic ctx task order account authzs,
  claim_task-IsAtomic ctx now until,
  reschedule_task-IsAtomic ctx task,
  finish_task-IsAtomic ctx task,
  retry_validation-IsAtomic ctx task challenge,
  complete_validation-IsAtomic ctx task challenge authz order,
  complete_issuance-IsAtomic ctx task order issued,
)
