-- ===== src/Tests/Settings.antt =====
-- Worker configurations and the names of a request on concrete inputs.
use go_acme_server.Prelude.{◌^◌, ◌≡◌, ◌↔◌, ◌⊎◌, refl, ◌*◌, arith, true, [], ◌∷◌}
use go_acme_server.Problem.{Identifier}
use go_acme_server.Certs.{covers_identifiers}
use go_acme_server.Certs.Covering.{IsIn, covers_identifiers_iff}
use go_acme_server.Settings.{
  ℤ, pos, WorkerSettings, usable, lease_or_default, twice, with_defaults, settled, second,
}
use go_acme_server.Settings.Workers.{IsSound, with_defaults-bounds}
use go_acme_server.Tests.Data.{example_com}

-- A host that sets the timeout only.
abbrev slow : WorkerSettings ℤ
slow = record {
  concurrency = pos 0;
  poll_interval = pos 0;
  lease = pos 0;
  task_timeout = pos (90 * second);
  max_attempts = pos 3;
  retry_delay = pos 0;
  stale_after = pos 0;
}

with_defaults-bounds_example : IsSound slow (settled slow (180 * second, 90 * second))
unfolding with_defaults lease_or_default twice
with_defaults-bounds_example =
    with_defaults-bounds slow (settled slow (180 * second, 90 * second)) refl (omega arith)

-- The double of a timeout of 2 ^ 62 nanoseconds wraps around, and a lease of one second is let
-- through.
wrapped :
    with_defaults (record slow { lease = pos second; task_timeout = pos (2 ^ 62) })
    ≡ usable (settled slow (second, 2 ^ 62))
unfolding with_defaults lease_or_default twice
wrapped = refl

covers_identifiers_iff_example :
    (covers_identifiers (example_com ∷ []) (example_com ∷ []) [] ≡ true) ↔ (
      ((id : Identifier) → IsIn id (example_com ∷ []) → IsIn id (example_com ∷ []))
      × ((id : Identifier) → IsIn id (example_com ∷ []) → IsIn id (example_com ∷ []) ⊎ IsIn id []))
covers_identifiers_iff_example = covers_identifiers_iff (example_com ∷ []) (example_com ∷ []) []
