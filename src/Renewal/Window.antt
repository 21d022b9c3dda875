-- ===== src/Renewal/Window.antt =====
-- renewal.go: the window of an immediate renewal.
use go_acme_server.Prelude.{◌*◌, ◌≤◌, ◌<◌, arith, ltb, Bool-cases, inl, inr}
use go_acme_server.Resource.{Time}
use go_acme_server.Renewal.{truncate_second, immediate_renewal}

-- The window of an immediate renewal is not empty and ends by the present: it opens before it ends,
-- and no client that picks a time inside it has to wait.
pub immediate_renewal-bounds :
    (since now : Time) (late : 61 * 1000000000 ≤ now)
    → ((immediate_renewal since now).0 < (immediate_renewal since now).1)
      × ((immediate_renewal since now).1 ≤ now)
unfolding immediate_renewal
immediate_renewal-bounds since now late =
    elim (Bool-cases (ltb (truncate_second since) (truncate_second now))) [
      | inl h ↦ (ground arith, ground arith)
      | inr h ↦ (ground arith, ground arith)
    ]
