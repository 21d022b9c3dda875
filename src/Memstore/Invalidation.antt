-- ===== src/Memstore/Invalidation.antt =====
-- memstore/memstore.go: what `UpdateAuthorization` does to the order of the authorization.
use go_acme_server.Prelude.{◌≡◌, ◌⊎◌, none, arith, false}
use go_acme_server.Exec.{Ctx, ok, ◌>>=◌}
use go_acme_server.Table.{string_eq}
use go_acme_server.Status.Order.{OrderStatus}
use go_acme_server.Status.Authorization.{terminal}
use go_acme_server.Resource.{Order, Authorization}
use go_acme_server.Memstore.{Store}
use go_acme_server.Memstore.Authorizations.{update_authorization}

-- Issuance was not dispatched: the order waits, or it is processing without a dispatch decision.
abbrev pub IsUndispatched : Order → Type 0
IsUndispatched o =
    (o.status ≡ OrderStatus.pending)
    ⊎ ((o.status ≡ OrderStatus.ready) ⊎ ((o.status ≡ OrderStatus.processing) × (o.issuance ≡ none)))

-- An update that leaves the authorization in a status that is not terminal touches no order.
pub update_authorization-live :
    (ctx : Ctx) (s t : Store) (a b : Authorization)
    → update_authorization ctx a s ≡ (ok b, t)
    → terminal a.status ≡ false
    → t.orders ≡ s.orders
unfolding update_authorization ◌>>=◌
update_authorization-live ctx s t a b h live = ground arith
