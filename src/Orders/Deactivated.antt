-- ===== src/Orders/Deactivated.antt =====
-- order.go: what a successful deactivation leaves.
use go_acme_server.Exec.{◌>>=◌ as ◌>>=ₛ◌}
use go_acme_server.Status.Authorization.{is as authorization_is}
use go_acme_server.Resource.{Authorization}
use go_acme_server.Server.{Server, ◌>>=◌}
