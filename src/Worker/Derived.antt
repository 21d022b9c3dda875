-- ===== src/Worker/Derived.antt =====
-- worker.go: `deriveOrderStatus` against a description without its loop.
use go_acme_server.Prelude.{
  ℕ, ◌≡◌, ◌⊎◌, inl, inr, refl, subst, some_inj, Bool, true, false, not, ◌&&◌, ◌||◌, String, Option,
  none, some, List, [], ◌∷◌, arith, Bool-cases, if◌then◌else◌,
}
use go_acme_server.Exec.{Result-cases, ok, ◌>>=◌ as ◌>>=ₛ◌}
use go_acme_server.Table.{get, string_eq}
use go_acme_server.Status.Order.{OrderStatus, can_transition}
use go_acme_server.Resource.{Time, Order, Authorization, effective_authz_status, after}
use go_acme_server.Memstore.{Store}
use go_acme_server.Memstore.Authorizations.{authorization}
use go_acme_server.Server.{Server, World, pure, now, call, ◌>>=◌}
use go_acme_server.Worker.Orders.{
  is_lost, is_valid, implied, stands_in, current_authz, scan_authzs, derive_order_status,
}
use go_acme_server.Worker.Commit.{advanced}

-- No request ends early and no other worker acts.
pub record IsQuiet (s : Server) : Type 0 where
  pub no_error : (n : ℕ) → s.ctx n ≡ none
  pub alone : (n : ℕ) (store : Store) → s.interfere n store ≡ store

-- The authorizations with the given IDs, `updated` in place of its stored copy.
abbrev pub or_stored : Option Authorization → Store → String → Option Authorization
or_stored none store id = get id store.authzs
or_stored (some a) store id = some a

abbrev pub both : Option Authorization → Option (List Authorization) → Option (List Authorization)
both (some a) (some l) = some (a ∷ l)
both _ _ = none

abbrev pub loaded : Option Authorization → Store → List String → Option (List Authorization)
loaded updated store [] = some []
loaded updated store (id ∷ ids) =
    both (or_stored (stands_in updated id) store id) (loaded updated store ids)

abbrev pub any_lost : Time → List Authorization → Bool
any_lost at [] = false
any_lost at (a ∷ l) = is_lost (effective_authz_status a at) || any_lost at l

abbrev pub all_valid : Time → List Authorization → Bool
all_valid at [] = true
all_valid at (a ∷ l) = is_valid (effective_authz_status a at) && all_valid at l

-- Invalid where the order has expired or an authorization is lost, ready where all are valid, and
-- pending otherwise.
abbrev pub verdict : Order → Time → List Authorization → OrderStatus
verdict o at l =
    if not (after o.expires at) || any_lost at l
    then OrderStatus.invalid
    else if all_valid at l
    then OrderStatus.ready
    else OrderStatus.pending

both-some :
    (o : Option Authorization) (p : Option (List Authorization)) (l : List Authorization)
    → both o p ≡ some l
    → (a : Authorization) × (m : List Authorization) × (o ≡ some a) × (p ≡ some m) × ((a ∷ m) ≡ l)
both-some none p l h = absurd (ground arith)
both-some (some a) none l h = absurd (ground arith)
both-some (some a) (some m) l h = (a, m, refl, refl, some_inj h)

module _ (s : Server) (quiet : IsQuiet s) where
  current_authz-quiet :
      (o : Option Authorization) (id : String) (a : Authorization) (w : World)
      → or_stored o w.store id ≡ some a
      → ((current_authz s o id w).0 ≡ ok a) × ((current_authz s o id w).1.store ≡ w.store)
  unfolding current_authz call authorization ◌>>=ₛ◌ pure
  current_authz-quiet none id a w h =
      ground (arith, quiet.no_error w.steps, quiet.alone w.steps w.store)
  current_authz-quiet (some b) id a w h = (ground arith, refl)

  scan_authzs-loaded :
      (updated : Option Authorization) (at : Time) (so_far : Bool) (ids : List String)
      (l : List Authorization) (w : World)
      → loaded updated w.store ids ≡ some l
      → (scan_authzs s updated at so_far ids w).0
        ≡ ok (if any_lost at l then OrderStatus.invalid else implied (so_far && all_valid at l))
  unfolding scan_authzs ◌>>=◌ pure
  scan_authzs-loaded updated at so_far [] l w h =
      subst
        (λ m.
          ok (implied so_far)
          ≡ ok (if any_lost at m then OrderStatus.invalid else implied (so_far && all_valid at m)))
        (some_inj h) (ground arith)
  scan_authzs-loaded updated at so_far (id ∷ ids) l w h =
      let (a, rest, read, others, same) =
        both-some (or_stored (stands_in updated id) w.store id) (loaded updated w.store ids) l h in
      let (found, kept) = current_authz-quiet (stands_in updated id) id a w read in
      let u = (current_authz s (stands_in updated id) id w).1 in
      let next =
        scan_authzs-loaded updated at (so_far && is_valid (effective_authz_status a at)) ids rest u
          (rw kept others) in
      subst
        (λ m.
          (scan_authzs s updated at so_far (id ∷ ids) w).0
          ≡ ok (if any_lost at m then OrderStatus.invalid else implied (so_far && all_valid at m)))
        same
        (elim (Bool-cases (is_lost (effective_authz_status a at))) [
          | inl lost ↦ ground arith
          | inr kept_on ↦ ground arith
        ])

-- While nothing else acts on the store, the derived status of an order whose authorizations are
-- stored, or stood in for, is the verdict over all of them at the time that was read.
pub derive_order_status-verdict :
    (s : Server) (quiet : IsQuiet s) (o : Order) (updated : Option Authorization)
    (l : List Authorization) (w : World)
    (stored : loaded updated w.store o.authorization_ids ≡ some l)
    → (derive_order_status s o updated w).0 ≡ ok (verdict o (s.clock w.steps) l)
unfolding derive_order_status now ◌>>=◌ pure
derive_order_status-verdict s quiet o updated l w stored =
    let u = (now s w).1 in
    let rest =
      scan_authzs-loaded s quiet updated (s.clock w.steps) true o.authorization_ids l u
        (rw (quiet.alone w.steps w.store) stored) in
    elim (Bool-cases (after o.expires (s.clock w.steps))) [
      | inl live ↦ ground arith
      | inr expired ↦ ground arith
    ]

-- The statuses that the authorizations can imply.
abbrev pub Derivable : OrderStatus → Type 0
Derivable st = (st ≡ OrderStatus.invalid) ⊎ ((st ≡ OrderStatus.ready) ⊎ (st ≡ OrderStatus.pending))

module _ (s : Server) where
  scan_authzs-Derivable :
      (updated : Option Authorization) (at : Time) (so_far : Bool) (ids : List String) (w : World)
      (st : OrderStatus)
      → (scan_authzs s updated at so_far ids w).0 ≡ ok st
      → Derivable st
  unfolding scan_authzs ◌>>=◌ pure
  scan_authzs-Derivable updated at true [] w st h = inr (inl (ground arith))
  scan_authzs-Derivable updated at false [] w st h = inr (inr (ground arith))
  scan_authzs-Derivable updated at so_far (id ∷ ids) w st h =
      let m = current_authz s (stands_in updated id) id w in
      elim (Result-cases m.0) [
        | inr (e, p) ↦ absurd (ground arith)
        | inl (a, p) ↦ elim (Bool-cases (is_lost (effective_authz_status a at))) [
          | inl lost ↦ inl (ground arith)
          | inr kept ↦
              scan_authzs-Derivable updated at (so_far && is_valid (effective_authz_status a at))
                ids m.1 st (ground arith)
        ]
      ]

  pub derive_order_status-Derivable :
      (o : Order) (updated : Option Authorization) (w : World) (st : OrderStatus)
      → (derive_order_status s o updated w).0 ≡ ok st
      → Derivable st
  unfolding derive_order_status now ◌>>=◌ pure
  derive_order_status-Derivable o updated w st h =
      elim (Bool-cases (after o.expires (s.clock w.steps))) [
        | inr expired ↦ inl (ground arith)
        | inl live ↦
            scan_authzs-Derivable updated (s.clock w.steps) true o.authorization_ids (now s w).1 st
              (ground arith)
      ]

-- An order that takes a derived status keeps the one that it had, or makes a move that the lifecycle
-- of an order allows.
pub advanced-can_transition :
    (s : Server) (o : Order) (updated : Option Authorization) (w : World) (st : OrderStatus)
    (derived : (derive_order_status s o updated w).0 ≡ ok st)
    → ((advanced o st).status ≡ o.status) ⊎ (can_transition o.status (advanced o st).status ≡ true)
unfolding can_transition
advanced-can_transition s o updated w st derived =
    let d = derive_order_status-Derivable s o updated w st derived in ground arith
