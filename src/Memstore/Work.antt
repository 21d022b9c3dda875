-- ===== src/Memstore/Work.antt =====
-- memstore/memstore.go: the methods that change resources and the task queue together.
use go_acme_server.Prelude.{
  Bool, true, false, not, ◌&&◌, ◌||◌, String, ◌==◌, Option, none, some, is_some, ◌=?◌, next_u64,
  List, [], ◌∷◌, if◌then◌else◌,
}
use go_acme_server.Exec.{
  Ctx, Exec, conflict, revision_mismatch, refused, raise, pure, gets, modify, fail_if, check_ctx,
  ◌>>=◌, ◌>>◌,
}
use go_acme_server.Table.{get, put, string_eq}
use go_acme_server.Status.Account.{AccountStatus, is as account_is}
use go_acme_server.Status.Order.{OrderStatus, is as order_is}
use go_acme_server.Status.Authorization.{AuthorizationStatus, is as authorization_is}
use go_acme_server.Resource.{
  Account, Order, IssuanceState, Authorization, Challenge, Certificate, Task, after,
}
use go_acme_server.Memstore.{Store}
use go_acme_server.Memstore.Checks.{
  check_order, check_authorization, check_challenge, check_new_task, check_task, insert_task,
  remove_task,
}
use go_acme_server.Memstore.Tasks.{release}

abbrev pub store_order : Order → Store → Store
store_order o s = record s { orders = put o.id o s.orders }

abbrev pub store_challenge : Challenge → Store → Store
store_challenge c s = record s { challenges = put c.id c s.challenges }

abbrev pub store_authz : Authorization → Store → Store
store_authz a s = record s { authzs = put a.id a s.authzs }

unfoldable pub accept_challenge : Ctx → Challenge → Task → Exec Store (Challenge × Task)
unfolding check_challenge check_new_task insert_task
accept_challenge ctx challenge task = do
  check_ctx ctx
  check_challenge challenge
  check_new_task task
  let updated = record challenge { revision = next_u64 challenge.revision }
  modify (store_challenge updated)
  queued ← insert_task task
  pure (updated, queued)

unfoldable pub finalize_order : Ctx → Order → Task → Exec Store (Order × Task)
unfolding check_order check_new_task insert_task
finalize_order ctx order task = do
  check_ctx ctx
  check_order order
  check_new_task task
  let updated = record order { revision = next_u64 order.revision }
  modify (store_order updated)
  queued ← insert_task task
  pure (updated, queued)

unfoldable pub retry_validation : Ctx → Task → Challenge → Exec Store (Task × Challenge)
unfolding check_task check_challenge
retry_validation ctx task challenge = do
  check_ctx ctx
  stored ← check_task task
  check_challenge challenge
  let updated = record challenge { revision = next_u64 challenge.revision }
  modify (store_challenge updated)
  modify (release task stored)
  pure (record task { lease_until = 0 }, updated)

unfoldable pub complete_validation :
    Ctx → Task → Challenge → Authorization → Order → Exec Store (Challenge × Authorization × Order)
unfolding check_task check_challenge check_authorization check_order remove_task
complete_validation ctx task challenge authz order = do
  check_ctx ctx
  check_task task
  check_challenge challenge
  check_authorization authz
  check_order order
  let challenge' = record challenge { revision = next_u64 challenge.revision }
  let authz' = record authz { revision = next_u64 authz.revision }
  let order' = record order { revision = next_u64 order.revision }
  modify (store_challenge challenge')
  modify (store_authz authz')
  modify (store_order order')
  remove_task task.id
  pure (challenge', authz', order')

-- `if cert.RenewalID != "" { s.certByRenewal[cert.RenewalID] = cert.ID }`
abbrev pub put_renewal : String → String → Store → Store
put_renewal renewal_id id s =
    if renewal_id == ""
    then s
    else record s { cert_by_renewal = put renewal_id id s.cert_by_renewal }

-- `if cert != nil { … }`
unfoldable pub create_certificate : Option Certificate → Exec Store (Option Certificate)
create_certificate none = pure none
create_certificate (some cert) = do
  fail_if (cert.id == "") refused
  found ← gets (λ s. get cert.id s.certificates)
  fail_if (is_some found) conflict
  indexed ← gets (λ s. get cert.renewal_id s.cert_by_renewal)
  fail_if (is_some indexed && not (cert.renewal_id == "")) conflict
  let created = record cert { revision = 1 }
  modify (λ s. record s { certificates = put cert.id created s.certificates })
  modify (put_renewal cert.renewal_id cert.id)
  pure (some created)

unfoldable pub complete_issuance :
    Ctx → Task → Order → Option Certificate → Exec Store (Order × Option Certificate)
unfolding check_task check_order remove_task
complete_issuance ctx task order cert = do
  check_ctx ctx
  check_task task
  check_order order
  cert' ← create_certificate cert
  let order' = record order { revision = next_u64 order.revision }
  modify (store_order order')
  remove_task task.id
  pure (order', cert')

-- `stored == nil || stored.Revision != account.Revision || stored.Status != AccountValid`
abbrev pub stale_account : Option Account → Account → Bool
stale_account none account = true
stale_account (some stored) account =
    not (stored.revision =? account.revision) || not (account_is stored.status AccountStatus.valid)

-- The stored order is processing and has no issuance.
abbrev pub awaits_dispatch : Option Order → Bool
awaits_dispatch none = false
awaits_dispatch (some stored) =
    order_is stored.status OrderStatus.processing && not (is_some stored.issuance)

-- The loop over `authzs`, beside the IDs that the order names.
unfoldable pub check_dispatch_authzs :
    IssuanceState → List Authorization → List String → Exec Store (Unit {0})
unfolding check_authorization
check_dispatch_authzs state [] ids = pure tt
check_dispatch_authzs state (a ∷ more) [] = raise revision_mismatch
check_dispatch_authzs state (a ∷ more) (id ∷ ids) = do
  check_authorization a
  fail_if
      (not (a.id == id)
        || not (authorization_is a.status AuthorizationStatus.valid)
        || not (after a.expires state.authorized_at))
      revision_mismatch
  check_dispatch_authzs state more ids

abbrev pub same_length {ℓ} : {A B : Type ℓ} → List A → List B → Bool
same_length [] [] = true
same_length (x ∷ xs) (y ∷ ys) = same_length xs ys
same_length _ _ = false

-- `order.Issuance == nil` is refused before its fields are read.
abbrev pub check_proposed :
    Order → Option IssuanceState → List Authorization → Exec Store (Unit {0})
check_proposed order none authzs = raise revision_mismatch
check_proposed order (some state) authzs = do
  stored ← gets (λ s. get order.id s.orders)
  fail_if (not (awaits_dispatch stored) || not (same_length authzs order.authorization_ids))
      revision_mismatch
  check_dispatch_authzs state authzs order.authorization_ids

-- The part of `BeginIssuance` behind the checks of the task and the order.
unfoldable pub record_dispatch : Order → Account → List Authorization → Exec Store Order
record_dispatch order account authzs = do
  found ← gets (λ s. get account.id s.accounts)
  fail_if (stale_account found account) revision_mismatch
  check_proposed order order.issuance authzs
  let updated = record order { revision = next_u64 order.revision }
  modify (store_order updated)
  pure updated

unfoldable pub begin_issuance : Ctx → Task → Order → Account → List Authorization → Exec Store Order
unfolding check_task check_order record_dispatch
begin_issuance ctx task order account authzs = do
  check_ctx ctx
  check_task task
  check_order order
  record_dispatch order account authzs
