-- ===== src/Tests/Status.antt =====
-- The lifecycles at a run.
use go_acme_server.Prelude.{◌≤◌, refl}
use go_acme_server.Status.Order
use go_acme_server.Status.Authorization
use go_acme_server.Status.Challenge
use go_acme_server.Status.Authorization.{AuthorizationStatus}
use go_acme_server.Status.Challenge.{ChallengeStatus}
use go_acme_server.Status.Order.{OrderStatus}
use go_acme_server.Status.Lifecycle.{Moves, here, next, moves_bounded}

to_ready : Moves Order.can_transition OrderStatus.pending OrderStatus.ready 1
unfolding Order.can_transition
to_ready = next here refl

issued : Moves Order.can_transition OrderStatus.pending OrderStatus.processing 2
unfolding Order.can_transition
issued = next to_ready refl

unmoved :
    Moves Authorization.can_transition AuthorizationStatus.pending AuthorizationStatus.pending 0
unmoved = here

asked : Moves Challenge.can_transition ChallengeStatus.pending ChallengeStatus.processing 1
unfolding Challenge.can_transition
asked = next here refl

moves_bounded_example : (2 ≤ 3) × (0 ≤ 2) × (1 ≤ 2)
moves_bounded_example = moves_bounded issued unmoved asked
