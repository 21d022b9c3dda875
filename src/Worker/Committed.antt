-- ===== src/Worker/Committed.antt =====
-- worker.go: what a validation does to the orders of the store.
use go_acme_server.Prelude.{
  ap, ℕ, zero, suc, ◌≡◌, ◌⊎◌, inl, inr, refl, sym, ◌∙◌, subst, Bool, true, false, String, ◌==◌,
  eq_iff, Option, none, some, List, [], ◌∷◌, ◌&&◌, arith, next_u64, Bool-cases,
}
use go_acme_server.Exec.{Ctx, Exec, Result-cases, ok, err, StoreError, ◌>>=◌ as ◌>>=ₛ◌}
use go_acme_server.Table.{Table, get, put, get-put, string_eq}
use go_acme_server.Status.Authorization.{AuthorizationStatus, is as authorization_is}
use go_acme_server.Status.Order.{OrderStatus, can_transition}
use go_acme_server.Resource.{Order, Authorization, Challenge, Task, effective_authz_status, after}
use go_acme_server.Memstore.{Store}
use go_acme_server.Memstore.Orders.{order}
use go_acme_server.Memstore.Authorizations.{authorization}
use go_acme_server.Memstore.Checks.{check_task, remove_task}
use go_acme_server.Memstore.Tasks.{reschedule_task, finish_task}
use go_acme_server.Memstore.Work.{complete_validation}
use go_acme_server.Server.{Server, World, pure, now, call, is_mismatch, is_not_found, ◌>>=◌}
use go_acme_server.Worker.Retry.{store_reschedule, reschedule, finish, drop_on_not_found}
use go_acme_server.Worker.Orders.{
  is_lost, is_valid, stands_in, current_authz, scan_authzs, derive_order_status,
}
use go_acme_server.Worker.Commit.{settled, advanced, put_back, commit_loop, commit}
use go_acme_server.Worker.Derived.{Derivable, derive_order_status-Derivable}

-- Each order is stored under its own ID.
abbrev pub IsKeyed : Table String Order → Type 0
IsKeyed l = (id : String) (o : Order) → get id l ≡ some o → o.id ≡ id

-- The status stays, or makes a move that the lifecycle allows.
abbrev pub IsMove : OrderStatus → OrderStatus → Type 0
IsMove a b = (b ≡ a) ⊎ (can_transition a b ≡ true)

-- Every order was there before, with a status that led to its own.
abbrev pub HaveMoved : Table String Order → Table String Order → Type 0
HaveMoved before after =
    (id : String) (o' : Order)
    → get id after ≡ some o'
    → (o : Order) × (get id before ≡ some o) × IsMove o.status o'.status

moved_same : (l m : Table String Order) → m ≡ l → HaveMoved l m
moved_same l m e = subst (λ k. HaveMoved l k) (sym e) (λ id o h. (o, h, inl refl))

moved_there : (l l' m m' : Table String Order) → l ≡ l' → m ≡ m' → HaveMoved l m → HaveMoved l' m'
moved_there l l' m m' e f h = subst (λ k. HaveMoved k m') e (subst (λ k. HaveMoved l k) f h)

advanced-IsMove :
    (o : Order) (status : OrderStatus)
    → Derivable status
    → IsMove o.status (advanced o status).status
unfolding can_transition
advanced-IsMove o status d = ground arith

own_id :
    (id : String) (l m : Table String Order) (o : Order)
    → IsKeyed l
    → m ≡ l
    → get id l ≡ some o
    → get o.id m ≡ some o
own_id id l m o keyed e there =
    subst (λ i. get i m ≡ some o) (sym (keyed id o there))
      (subst (λ k. get id k ≡ some o) (sym e) there)

put-HaveMoved :
    (l : Table String Order) (o o' : Order)
    → get o'.id l ≡ some o
    → IsMove o.status o'.status
    → HaveMoved l (put o'.id o' l)
put-HaveMoved l o o' there move id p h =
    let g = get-put id o'.id o' l in
    elim (Bool-cases (o'.id == id)) [
      | inl e ↦
          let same = (eq_iff o'.id id).0 e in
          let is : o' ≡ p = ground arith in
          (
            o,
            subst (λ i. get i l ≡ some o) same there,
            subst (λ q. IsMove o.status q.status) is move,
          )
      | inr e ↦ (p, ground arith, inl refl)
    ]

orders-complete_validation :
    (ctx : Ctx) (task : Task) (ch : Challenge) (authz : Authorization) (o : Order) (st : Store)
    (r : Challenge × Authorization × Order)
    → (complete_validation ctx task ch authz o st).0 ≡ ok r
    → (complete_validation ctx task ch authz o st).1.orders
      ≡ put o.id (record o { revision = next_u64 o.revision }) st.orders
unfolding complete_validation ◌>>=ₛ◌
orders-complete_validation ctx task ch authz o st r h = ground arith

orders-failed_validation :
    (ctx : Ctx) (task : Task) (ch : Challenge) (authz : Authorization) (o : Order) (st : Store)
    (e : StoreError)
    → (complete_validation ctx task ch authz o st).0 ≡ err e
    → (complete_validation ctx task ch authz o st).1.orders ≡ st.orders
unfolding complete_validation ◌>>=ₛ◌
orders-failed_validation ctx task ch authz o st e h = ground arith

orders-order : (id : String) (ctx : Ctx) (st : Store) → (order ctx id st).1.orders ≡ st.orders
unfolding order ◌>>=ₛ◌
orders-order id ctx st = ground arith

order-found :
    (ctx : Ctx) (id : String) (st : Store) (o : Order)
    → (order ctx id st).0 ≡ ok o
    → get id st.orders ≡ some o
unfolding order ◌>>=ₛ◌
order-found ctx id st o h = ground arith

orders-authorization :
    (id : String) (ctx : Ctx) (st : Store) → (authorization ctx id st).1.orders ≡ st.orders
unfolding authorization ◌>>=ₛ◌
orders-authorization id ctx st = ground arith

orders-reschedule_task :
    (t : Task) (ctx : Ctx) (st : Store) → (reschedule_task ctx t st).1.orders ≡ st.orders
unfolding reschedule_task check_task ◌>>=ₛ◌
orders-reschedule_task t ctx st = ground arith

orders-finish_task :
    (t : Task) (ctx : Ctx) (st : Store) → (finish_task ctx t st).1.orders ≡ st.orders
unfolding finish_task check_task remove_task ◌>>=ₛ◌
orders-finish_task t ctx st = ground arith

module _ (s : Server) where
  -- No other request or worker touches the orders; they may change everything else.
  abbrev pub KeepsOrders : Type 0
  KeepsOrders = (n : ℕ) (st : Store) → (s.interfere n st).orders ≡ st.orders

  module _ (keeps : KeepsOrders) where
    orders-call :
        {A : Type 0} (m : Ctx → Exec Store A)
        → ((ctx : Ctx) (st : Store) → (m ctx st).1.orders ≡ st.orders)
        → (w : World) → (call s m w).1.store.orders ≡ w.store.orders
    unfolding call
    orders-call m p w = p (s.ctx w.steps) (s.interfere w.steps w.store) ∙ keeps w.steps w.store

    orders-store_reschedule :
        (task : Task) (w : World) → (store_reschedule s task w).1.store.orders ≡ w.store.orders
    unfolding store_reschedule ◌>>=◌ pure
    orders-store_reschedule task w =
        orders-call (λ c. reschedule_task c task) (orders-reschedule_task task) w

    orders-put_back :
        (task : Task) (w : World) → (put_back s task w).1.store.orders ≡ w.store.orders
    unfolding put_back reschedule now ◌>>=◌
    orders-put_back task w = orders-store_reschedule _ (now s w).1 ∙ keeps w.steps w.store

    orders-finish : (task : Task) (w : World) → (finish s task w).1.store.orders ≡ w.store.orders
    unfolding finish ◌>>=◌ pure
    orders-finish task w = orders-call (λ c. finish_task c task) (orders-finish_task task) w

    dropped :
        (task : Task) (e : StoreError) (w : World)
        → is_not_found e ≡ false
        → (drop_on_not_found s task e w).1.store.orders ≡ w.store.orders
    unfolding drop_on_not_found put_back
    dropped task e w h = let g = orders-put_back task w in ground arith

    orders-drop :
        (task : Task) (e : StoreError) (w : World)
        → (drop_on_not_found s task e w).1.store.orders ≡ w.store.orders
    unfolding drop_on_not_found
    orders-drop task e w =
        let f = orders-finish task w in
        let g = orders-put_back task w in
        elim (Bool-cases (is_not_found e)) [ inl h ↦ ground arith | inr h ↦ dropped task e w h ]

    orders-current_authz :
        (o : Option Authorization) (id : String) (w : World)
        → (current_authz s o id w).1.store.orders ≡ w.store.orders
    unfolding current_authz pure
    orders-current_authz none id w =
        orders-call (λ c. authorization c id) (orders-authorization id) w
    orders-current_authz (some a) id w = refl

    orders-scan_authzs :
        (updated : Option Authorization) (at : ℕ) (so_far : Bool) (ids : List String) (w : World)
        → (scan_authzs s updated at so_far ids w).1.store.orders ≡ w.store.orders
    unfolding scan_authzs ◌>>=◌ pure
    orders-scan_authzs updated at so_far [] w = refl
    orders-scan_authzs updated at so_far (id ∷ ids) w =
        let m = current_authz s (stands_in updated id) id w in
        let e = orders-current_authz (stands_in updated id) id w in
        elim (Result-cases m.0) [
          | inr (f, p) ↦ ground arith
          | inl (a, p) ↦
              let status = effective_authz_status a at in
              let next = orders-scan_authzs updated at (so_far && is_valid status) ids m.1 in
              elim (Bool-cases (is_lost status)) [ inl q ↦ ground arith | inr q ↦ ground arith ]
        ]

    orders-derive_order_status :
        (o : Order) (updated : Option Authorization) (w : World)
        → (derive_order_status s o updated w).1.store.orders ≡ w.store.orders
    unfolding derive_order_status now ◌>>=◌ pure
    orders-derive_order_status o updated w =
        let k = keeps w.steps w.store in
        let next =
          orders-scan_authzs updated (s.clock w.steps) true o.authorization_ids (now s w).1 in
        elim (Bool-cases (after o.expires (s.clock w.steps))) [
          | inl q ↦ ground arith
          | inr q ↦ ground arith
        ]

    call_order :
        (id : String) (w : World) (o : Order)
        → (call s (λ c. order c id) w).0 ≡ ok o
        → get id w.store.orders ≡ some o
    unfolding call
    call_order id w o h =
        subst (λ l. get id l ≡ some o) (keeps w.steps w.store)
          (order-found (s.ctx w.steps) id (s.interfere w.steps w.store) o h)

    call_failed :
        (task : Task) (ch : Challenge) (authz : Authorization) (o : Order) (w : World)
        (e : StoreError)
        → (call s (λ c. complete_validation c task ch authz o) w).0 ≡ err e
        → (call s (λ c. complete_validation c task ch authz o) w).1.store.orders ≡ w.store.orders
    unfolding call
    call_failed task ch authz o w e h =
        orders-failed_validation (s.ctx w.steps) task ch authz o (s.interfere w.steps w.store) e h
        ∙ keeps w.steps w.store

    call_committed :
        (task : Task) (ch : Challenge) (authz : Authorization) (o : Order) (status : OrderStatus)
        (w : World) (r : Challenge × Authorization × Order)
        → Derivable status
        → get o.id w.store.orders ≡ some o
        → (call s (λ c. complete_validation c task ch authz (advanced o status)) w).0 ≡ ok r
        → HaveMoved w.store.orders
            (call s (λ c. complete_validation c task ch authz (advanced o status)) w).1.store.orders
    unfolding call
    call_committed task ch authz o status w r d there h =
        let st = s.interfere w.steps w.store in
        let new = advanced o status in
        let written = record new { revision = next_u64 new.revision } in
        let own : get written.id w.store.orders ≡ some o = ground arith in
        let move = advanced-IsMove o status d in
        moved_there w.store.orders w.store.orders (put written.id written w.store.orders)
          (complete_validation (s.ctx w.steps) task ch authz new st).1.orders refl
          (ap (λ l. put written.id written l) (sym (keeps w.steps w.store))
            ∙ sym (orders-complete_validation (s.ctx w.steps) task ch authz new st r h))
          (put-HaveMoved w.store.orders o written own move)

    commit_loop-HaveMoved :
        (rounds : ℕ) (task : Task) (ch : Challenge) (authz : Authorization) (w : World)
        → IsKeyed w.store.orders
        → HaveMoved w.store.orders (commit_loop s rounds task ch authz w).1.store.orders
    unfolding commit_loop now ◌>>=◌ pure
    commit_loop-HaveMoved zero task ch authz w keyed =
        moved_same w.store.orders (commit_loop s zero task ch authz w).1.store.orders
          (orders-put_back task w)
    commit_loop-HaveMoved (suc rounds) task ch authz w keyed =
        let before = w.store.orders in
        let end = (commit_loop s (suc rounds) task ch authz w).1.store.orders in
        let m = call s (λ c. order c authz.order_id) w in
        let e₁ = orders-call (λ c. order c authz.order_id) (orders-order authz.order_id) w in
        elim (Result-cases m.0) [
          | inr (e, p) ↦ let f = orders-drop task e m.1 in moved_same before end (ground arith)
          | inl (o, p) ↦
              let there = call_order authz.order_id w o p in
              let n = derive_order_status s o (some authz) m.1 in
              let e₂ = orders-derive_order_status o (some authz) m.1 in
              elim (Result-cases n.0) [
                | inr (e, q) ↦
                    let f = orders-put_back task n.1 in moved_same before end (ground arith)
                | inl (status, q) ↦
                    let d = derive_order_status-Derivable s o (some authz) m.1 status q in
                    let new = advanced o status in
                    let k = call s (λ c. complete_validation c task ch authz new) n.1 in
                    let kept = e₂ ∙ e₁ in
                    let own =
                      own_id authz.order_id w.store.orders n.1.store.orders o keyed kept there in
                    elim (Result-cases k.0) [
                      | inl (r, z) ↦
                          moved_there n.1.store.orders before k.1.store.orders end kept
                            (ground arith) (call_committed task ch authz o status n.1 r d own z)
                      | inr (e, z) ↦
                          let e₃ = call_failed task ch authz new n.1 e z ∙ kept in
                          elim (Bool-cases (is_mismatch e)) [
                            | inr lost ↦
                                let f = orders-put_back task k.1 in
                                moved_same before end (ground arith)
                            | inl stale ↦
                                let x = call s (λ c. authorization c authz.id) k.1 in
                                let e₄ =
                                  orders-call (λ c. authorization c authz.id)
                                    (orders-authorization authz.id) k.1
                                  ∙ e₃ in
                                elim (Result-cases x.0) [
                                  | inr (g, y) ↦
                                      let f = orders-drop task g x.1 in
                                      moved_same before end (ground arith)
                                  | inl (current, y) ↦
                                      let u = (now s x.1).1 in
                                      let e₅ = keeps x.1.steps x.1.store ∙ e₄ in
                                      let at = s.clock x.1.steps in
                                      let status' = effective_authz_status current at in
                                      let keyed' = subst (λ l. IsKeyed l) (sym e₅) keyed in
                                      elim (Bool-cases
                                        (authorization_is status' AuthorizationStatus.pending)) [
                                          | inl waits ↦
                                              let a = record authz {
                                                revision = current.revision;
                                              } in
                                              moved_there u.store.orders before
                                                (commit_loop s rounds task ch a u).1.store.orders
                                                end e₅ (ground arith)
                                                (commit_loop-HaveMoved rounds task ch a u keyed')
                                          | inr left ↦
                                              let c = settled ch status' in
                                              moved_there u.store.orders before
                                                (commit_loop s rounds task c current
                                                  u).1.store.orders
                                                end e₅ (ground arith)
                                                (commit_loop-HaveMoved rounds task c current u
                                                  keyed')
                                        ]
                                ]
                          ]
                    ]
              ]
        ]

-- While no other request or worker touches the orders, a validation that is committed leaves every
-- order with the status that it had, or moves it to one that the lifecycle of an order allows next,
-- whatever happens to the authorizations and tasks meanwhile and however often the commit is tried
-- again. The orders are stored under their own IDs.
pub commit-HaveMoved :
    (s : Server) (keeps : KeepsOrders s) (task : Task) (ch : Challenge) (authz : Authorization)
    (w : World) (keyed : IsKeyed w.store.orders)
    → HaveMoved w.store.orders (commit s task ch authz w).1.store.orders
unfolding commit
commit-HaveMoved s keeps task ch authz w keyed =
    commit_loop-HaveMoved s keeps 3 task ch authz w keyed
