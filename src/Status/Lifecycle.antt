-- ===== src/Status/Lifecycle.antt =====
-- The moves of status.go as lifecycles.
use go_acme_server.Prelude.{ℕ, zero, suc, ◌+◌, ◌≤◌, ◌<◌, ◌≡◌, refl, Bool, true, false, ◌↔◌, arith}
use go_acme_server.Status.Order
use go_acme_server.Status.Authorization
use go_acme_server.Status.Challenge
use go_acme_server.Status.Order.{OrderStatus}
use go_acme_server.Status.Authorization.{AuthorizationStatus}
use go_acme_server.Status.Challenge.{ChallengeStatus}

-- A run of `n` allowed moves.
pub data Moves {S : Type 0} (can : S → S → Bool) (s : S) : S → ℕ → Type 0 where
  here : Moves can s s zero
  next : {t u : S} {n : ℕ} → Moves can s t n → can t u ≡ true → Moves can s u (suc n)

-- A rank that every move raises bounds the runs.
Moves-rank :
    {S : Type 0} {can : S → S → Bool} (rank : S → ℕ)
    → ((t u : S) → can t u ≡ true → rank t < rank u)
    → {s t : S} {n : ℕ} → Moves can s t n
    → rank s + n ≤ rank t
Moves-rank rank up here = omega arith
Moves-rank rank up (next {t} {u} m h) = omega (arith, Moves-rank rank up m, up t u h)

order_rank : OrderStatus → ℕ
order_rank OrderStatus.pending = 0
order_rank OrderStatus.ready = 1
order_rank OrderStatus.processing = 2
order_rank _ = 3

authorization_rank : AuthorizationStatus → ℕ
authorization_rank AuthorizationStatus.pending = 0
authorization_rank AuthorizationStatus.valid = 1
authorization_rank _ = 2

challenge_rank : ChallengeStatus → ℕ
challenge_rank ChallengeStatus.pending = 0
challenge_rank ChallengeStatus.processing = 1
challenge_rank _ = 2

order_rank-lt : (t u : OrderStatus) → Order.can_transition t u ≡ true → order_rank t < order_rank u
unfolding order_rank Order.can_transition
order_rank-lt t u h = ground arith

authorization_rank-lt :
    (t u : AuthorizationStatus)
    → Authorization.can_transition t u ≡ true
    → authorization_rank t < authorization_rank u
unfolding authorization_rank Authorization.can_transition
authorization_rank-lt t u h = ground arith

challenge_rank-lt :
    (t u : ChallengeStatus)
    → Challenge.can_transition t u ≡ true
    → challenge_rank t < challenge_rank u
unfolding challenge_rank Challenge.can_transition
challenge_rank-lt t u h = ground arith

order_rank-le : (s : OrderStatus) → order_rank s ≤ 3
unfolding order_rank
order_rank-le s = ground arith

authorization_rank-le : (s : AuthorizationStatus) → authorization_rank s ≤ 2
unfolding authorization_rank
authorization_rank-le s = ground arith

challenge_rank-le : (s : ChallengeStatus) → challenge_rank s ≤ 2
unfolding challenge_rank
challenge_rank-le s = ground arith

-- Whatever statuses an order goes through, it moves at most three times; an authorization and a
-- challenge move at most twice.
pub moves_bounded :
    {o o' : OrderStatus} {a a' : AuthorizationStatus} {c c' : ChallengeStatus} {n m k : ℕ}
    → Moves Order.can_transition o o' n
    → Moves Authorization.can_transition a a' m
    → Moves Challenge.can_transition c c' k
    → (n ≤ 3) × (m ≤ 2) × (k ≤ 2)
moves_bounded {o} {o'} {a} {a'} {c} {c'} order authz challenge = (
  omega (arith, Moves-rank order_rank order_rank-lt order, order_rank-le o'),
  omega
      (arith, Moves-rank authorization_rank authorization_rank-lt authz, authorization_rank-le a'),
  omega (arith, Moves-rank challenge_rank challenge_rank-lt challenge, challenge_rank-le c'),
)

-- For a known status, `terminal` says exactly that no move is left.
pub order_terminal_iff :
    (s : OrderStatus)
    → Order.known s ≡ true
    → (Order.terminal s ≡ true) ↔ ((t : OrderStatus) → Order.can_transition s t ≡ false)
unfolding Order.known Order.terminal Order.can_transition
order_terminal_iff OrderStatus.pending k = (λ h. cc, λ h. cc (h OrderStatus.ready))
order_terminal_iff OrderStatus.ready k = (λ h. cc, λ h. cc (h OrderStatus.processing))
order_terminal_iff OrderStatus.processing k = (λ h. cc, λ h. cc (h OrderStatus.valid))
order_terminal_iff OrderStatus.valid k = (λ h t. refl, λ h. refl)
order_terminal_iff OrderStatus.invalid k = (λ h t. refl, λ h. refl)
order_terminal_iff (OrderStatus.other a) k = cc
