-- ===== src/Worker/Orders.antt =====
-- worker.go: the order status that the authorizations imply.
use go_acme_server.Prelude.{
  ℕ, Bool, true, not, ◌&&◌, ◌||◌, String, ◌==◌, Option, none, some, List, [], ◌∷◌, if◌then◌else◌,
}
use go_acme_server.Exec.{Result, ok, err}
use go_acme_server.Status.Order.{OrderStatus}
use go_acme_server.Status.Authorization.{AuthorizationStatus, is as authorization_is}
use go_acme_server.Resource.{Order, Authorization, effective_authz_status, after}
use go_acme_server.Memstore.Authorizations.{authorization}
use go_acme_server.Server.{Server, Run, pure, now, call, on, ◌>>=◌}

-- A status that ends the order.
abbrev pub is_lost : AuthorizationStatus → Bool
is_lost s =
    authorization_is s AuthorizationStatus.invalid
    || authorization_is s AuthorizationStatus.expired
    || authorization_is s AuthorizationStatus.deactivated
    || authorization_is s AuthorizationStatus.revoked

abbrev pub is_valid : AuthorizationStatus → Bool
is_valid s = authorization_is s AuthorizationStatus.valid

-- The end of the loop.
abbrev pub implied : Bool → OrderStatus
implied all_valid = if all_valid then OrderStatus.ready else OrderStatus.pending

-- `updated` stands in for its stored copy.
abbrev pub stands_in : Option Authorization → String → Option Authorization
stands_in none id = none
stands_in (some a) id = if id == a.id then some a else none

module _ (s : Server) where
  unfoldable pub current_authz : Option Authorization → String → Run (Result Authorization)
  current_authz none id = call s (λ c. authorization c id)
  current_authz (some a) id = pure (ok a)

  unfoldable pub scan_authzs :
      Option Authorization → ℕ → Bool → List String → Run (Result OrderStatus)
  unfolding current_authz
  scan_authzs updated at all_valid [] = pure (ok (implied all_valid))
  scan_authzs updated at all_valid (id ∷ ids) = do
    found ← current_authz (stands_in updated id) id
    on found (λ e. pure (err e))
        (λ a.
          let status = effective_authz_status a at in
          let rest = scan_authzs updated at (all_valid && is_valid status) ids in
          if is_lost status then pure (ok OrderStatus.invalid) else rest)

  unfoldable pub derive_order_status : Order → Option Authorization → Run (Result OrderStatus)
  unfolding scan_authzs
  derive_order_status order updated = do
    at ← now s
    if not (after order.expires at)
        then pure (ok OrderStatus.invalid)
        else scan_authzs updated at true order.authorization_ids
