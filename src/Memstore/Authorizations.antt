-- ===== src/Memstore/Authorizations.antt =====
-- memstore/memstore.go: authorizations and challenges.
use go_acme_server.Prelude.{
  ℕ, Bool, true, false, not, ◌&&◌, ◌||◌, String, Option, none, some, next_u64, if◌then◌else◌,
}
use go_acme_server.Exec.{Ctx, Exec, not_found, pure, or_raise, gets, modify, check_ctx, ◌>>=◌, ◌>>◌}
use go_acme_server.Table.{get, put, string_eq}
use go_acme_server.Status.Order.{OrderStatus, is as order_is}
use go_acme_server.Status.Authorization.{AuthorizationStatus, is as authorization_is, terminal}
use go_acme_server.Problem.{Problem, new_problem, unauthorized}
use go_acme_server.Resource.{Order, IssuanceState, Authorization, Challenge, after}
use go_acme_server.Memstore.{Store}
use go_acme_server.Memstore.Checks.{check_authorization}

-- `Authorization` and `Challenge`.
unfoldable pub authorization : Ctx → String → Exec Store Authorization
authorization ctx id = do
  check_ctx ctx
  found ← gets (λ s. get id s.authzs)
  or_raise not_found found

unfoldable pub challenge : Ctx → String → Exec Store Challenge
challenge ctx id = do
  check_ctx ctx
  found ← gets (λ s. get id s.challenges)
  or_raise not_found found

-- `InvalidAuthorizationProblem` of store.go.
pub invalid_authorization_problem : Problem
invalid_authorization_problem = new_problem unauthorized "an order authorization is no longer valid"

abbrev pub is_none : Option IssuanceState → Bool
is_none none = true
is_none (some x) = false

-- An order that has not dispatched issuance.
abbrev pub undispatched : Order → Bool
undispatched o =
    order_is o.status OrderStatus.pending
    || order_is o.status OrderStatus.ready
    || (order_is o.status OrderStatus.processing && is_none o.issuance)

abbrev pub invalidated : Order → Order
invalidated o = record o {
  status = OrderStatus.invalid;
  error = some invalid_authorization_problem;
  revision = next_u64 o.revision;
}

-- A nil order is left alone.
abbrev pub invalidate_order : String → Option Order → Store → Store
invalidate_order id none s = s
invalidate_order id (some o) s =
    if undispatched o then record s { orders = put id (invalidated o) s.orders } else s

unfoldable pub update_authorization : Ctx → Authorization → Exec Store Authorization
unfolding check_authorization
update_authorization ctx authz = do
  check_ctx ctx
  check_authorization authz
  let updated = record authz { revision = next_u64 authz.revision }
  modify (λ s. record s { authzs = put authz.id updated s.authzs })
  modify (λ s.
      if terminal authz.status
      then invalidate_order authz.order_id (get authz.order_id s.orders) s
      else s)
  pure updated

abbrev pub proves : Authorization → ℕ → Bool
proves a now =
    authorization_is a.status AuthorizationStatus.valid && not a.pre_approved && after a.expires now
