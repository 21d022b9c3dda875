-- ===== src/Memstore/Dispatch.antt =====
-- memstore/memstore.go: what `BeginIssuance` has established when it records a dispatch.
use go_acme_server.Prelude.{
  ◌≡◌, refl, sym, ◌∙◌, String, eq_iff, Option, none, some, arith, List, [], ◌∷◌, Bool, true, false,
  Option-cases, inl, inr, not, ◌||◌, next_u64, ◌<◌,
}
use go_acme_server.Exec.{
  Ctx, ok, StoreError, revision_mismatch, fail_if, check_ctx, gets, modify, pure, ◌>>=◌, ◌>>◌,
  >>=-eq-ok,
}
use go_acme_server.Table.{get, string_eq}
use go_acme_server.Status.Account.{AccountStatus}
use go_acme_server.Status.Order.{OrderStatus}
use go_acme_server.Status.Authorization.{AuthorizationStatus}
use go_acme_server.Resource.{Account, Order, IssuanceState, Authorization, Task}
use go_acme_server.Memstore.{Store}
use go_acme_server.Memstore.Checks.{check_task, check_order, check_authorization}
use go_acme_server.Memstore.Work.{
  begin_issuance, record_dispatch, check_dispatch_authzs, check_proposed, store_order, same_length,
  stale_account, awaits_dispatch,
}

-- Each authorization is the one that the order names in its place, is stored at its revision, is
-- valid, and expires after the dispatch was authorized.
abbrev pub AllValid : Store → IssuanceState → List Authorization → List String → Type 0
AllValid s state [] [] = Unit
AllValid s state (a ∷ more) (id ∷ ids) =
    (a.id ≡ id)
    × ((stored : Authorization) × (get a.id s.authzs ≡ some stored)
        × (stored.revision ≡ a.revision))
    × (a.status ≡ AuthorizationStatus.valid)
    × (state.authorized_at < a.expires)
    × AllValid s state more ids
AllValid s state _ _ = ⊥

check_authorization-ok :
    (s t : Store) (a : Authorization)
    → check_authorization a s ≡ (ok tt, t)
    → (stored : Authorization) × (get a.id s.authzs ≡ some stored)
      × (stored.revision ≡ a.revision)
      × (t ≡ s)
unfolding check_authorization ◌>>=◌
check_authorization-ok s t a h = elim (Option-cases (get a.id s.authzs)) [
  | inl e ↦ absurd (ground arith)
  | inr (stored, e) ↦ (stored, e, ground arith, ground arith)
]

check_dispatch_authzs-ok :
    (s t : Store) (state : IssuanceState) (authzs : List Authorization) (ids : List String)
    → same_length authzs ids ≡ true
    → check_dispatch_authzs state authzs ids s ≡ (ok tt, t)
    → AllValid s state authzs ids × (t ≡ s)
unfolding check_dispatch_authzs ◌>>=◌
check_dispatch_authzs-ok s t state [] [] l h = (tt, ground arith)
check_dispatch_authzs-ok s t state [] (id ∷ ids) l h = cc
check_dispatch_authzs-ok s t state (a ∷ more) [] l h = cc
check_dispatch_authzs-ok s t state (a ∷ more) (id ∷ ids) l h =
    elim (Option-cases (get a.id s.authzs)) [
      | inl e ↦ absurd (ground arith)
      | inr (stored, e) ↦
          let rest : check_dispatch_authzs state more ids s ≡ (ok tt, t) = ground arith in
          let (valid, same) = check_dispatch_authzs-ok s t state more ids l rest in
          (
            (
              ground (arith, eq_iff a.id id),
              (stored, e, ground arith),
              ground arith,
              ground arith,
              valid,
            ),
            same,
          )
    ]

check_task-ok :
    (s t : Store) (task queued : Task)
    → check_task task s ≡ (ok queued, t)
    → (get task.id s.tasks ≡ some queued) × (queued.fence ≡ task.fence) × (t ≡ s)
unfolding check_task ◌>>=◌
check_task-ok s t task queued h = elim (Option-cases (get task.id s.tasks)) [
  | inl e ↦ absurd (ground arith)
  | inr (stored, e) ↦ (ground arith, ground arith, ground arith)
]

check_order-ok :
    (s t : Store) (o : Order)
    → check_order o s ≡ (ok tt, t)
    → (stored : Order) × (get o.id s.orders ≡ some stored)
      × (stored.revision ≡ o.revision)
      × (t ≡ s)
unfolding check_order ◌>>=◌
check_order-ok s t o h = elim (Option-cases (get o.id s.orders)) [
  | inl e ↦ absurd (ground arith)
  | inr (stored, e) ↦ (stored, e, ground arith, ground arith)
]

check_ctx-ok : (c : Ctx) (s t : Store) → check_ctx c s ≡ (ok tt, t) → t ≡ s
unfolding ◌>>=◌
check_ctx-ok none s t h = ground arith
check_ctx-ok (some e) s t h = absurd (ground arith)

gets-ok :
    {A : Type 0} (f : Store → A) (s t : Store) (x : A) → gets f s ≡ (ok x, t) → (x ≡ f s) × (t ≡ s)
unfolding ◌>>=◌
gets-ok f s t x h = (ground arith, ground arith)

fail_if-ok :
    (b : Bool) (e : StoreError) (s t : Store) → fail_if b e s ≡ (ok tt, t) → (b ≡ false) × (t ≡ s)
unfolding ◌>>=◌
fail_if-ok b e s t h = ground arith

fresh_account :
    (found : Option Account) (a : Account)
    → stale_account found a ≡ false
    → (owner : Account) × (found ≡ some owner)
      × (owner.revision ≡ a.revision)
      × (owner.status ≡ AccountStatus.valid)
fresh_account none a h = cc
fresh_account (some owner) a h = (owner, refl, ground arith, ground arith)

undispatched_order :
    (found : Option Order) (stored : Order)
    → found ≡ some stored
    → awaits_dispatch found ≡ true
    → (stored.status ≡ OrderStatus.processing) × (stored.issuance ≡ none)
undispatched_order found stored e h = (ground arith, ground arith)

check_proposed-ok :
    (s t : Store) (o stored : Order) (proposed : Option IssuanceState) (authzs : List Authorization)
    → get o.id s.orders ≡ some stored
    → check_proposed o proposed authzs s ≡ (ok tt, t)
    → (state : IssuanceState) × (proposed ≡ some state)
      × (stored.status ≡ OrderStatus.processing)
      × (stored.issuance ≡ none)
      × AllValid s state authzs o.authorization_ids
      × (t ≡ s)
unfolding ◌>>=◌
check_proposed-ok s t o stored none authzs e h = cc
check_proposed-ok s t o stored (some state) authzs e h =
    let (u, s', p, q) =
      >>=-eq-ok
        (fail_if
          (not (awaits_dispatch (get o.id s.orders))
            || not (same_length authzs o.authorization_ids))
          revision_mismatch)
        (λ _. check_dispatch_authzs state authzs o.authorization_ids) s t tt h in
    let (b, e') = fail_if-ok _ _ s s' p in
    let (valid, same) =
      check_dispatch_authzs-ok s t state authzs o.authorization_ids (ground (arith, b))
        (rw e' at q) in
    let (processing, none_yet) = undispatched_order _ stored e (ground (arith, b)) in
    (state, refl, processing, none_yet, valid, same)

store_dispatch-ok :
    (s t : Store) (o o' : Order)
    → (modify (store_order (record o { revision = next_u64 o.revision }))
          >> pure (record o { revision = next_u64 o.revision }))
        s
      ≡ (ok o', t)
    → t ≡ store_order (record o { revision = next_u64 o.revision }) s
unfolding ◌>>=◌
store_dispatch-ok s t o o' h = ground arith

-- What the part behind the checks has established.
abbrev Recorded : Store → Store → Order → Order → Account → List Authorization → Type 0
Recorded s t o stored a authzs =
    (owner : Account) × (state : IssuanceState) × (stored.status ≡ OrderStatus.processing)
    × (stored.issuance ≡ none)
    × (get a.id s.accounts ≡ some owner)
    × (owner.revision ≡ a.revision)
    × (owner.status ≡ AccountStatus.valid)
    × (o.issuance ≡ some state)
    × AllValid s state authzs o.authorization_ids
    × (t ≡ store_order (record o { revision = next_u64 o.revision }) s)

record_dispatch-proposed :
    (s t : Store) (o stored o' : Order) (a owner : Account) (authzs : List Authorization)
    → get o.id s.orders ≡ some stored
    → get a.id s.accounts ≡ some owner
    → owner.revision ≡ a.revision
    → owner.status ≡ AccountStatus.valid
    → (check_proposed o o.issuance authzs
          >> (modify (store_order (record o { revision = next_u64 o.revision }))
              >> pure (record o { revision = next_u64 o.revision })))
        s
      ≡ (ok o', t)
    → Recorded s t o stored a authzs
record_dispatch-proposed s t o stored o' a owner authzs at_order at_account revision valid h =
    let (u, s', p, h') = >>=-eq-ok _ _ s t o' h in
    let (state, proposed, processing, none_yet, all_valid, e) =
      check_proposed-ok s s' o stored o.issuance authzs at_order p in
    (
      owner,
      state,
      processing,
      none_yet,
      at_account,
      revision,
      valid,
      proposed,
      all_valid,
      store_dispatch-ok s t o o' (rw e at h'),
    )

record_dispatch-ok :
    (s t : Store) (o stored o' : Order) (a : Account) (authzs : List Authorization)
    → get o.id s.orders ≡ some stored
    → record_dispatch o a authzs s ≡ (ok o', t)
    → Recorded s t o stored a authzs
unfolding record_dispatch
record_dispatch-ok s t o stored o' a authzs at_order h =
    let (found, s₁, p₁, h₁) = >>=-eq-ok _ _ s t o' h in
    let (is_found, e₁) = gets-ok (λ s. get a.id s.accounts) s s₁ found p₁ in
    let (u, s₂, p₂, h₂) = >>=-eq-ok _ _ s₁ t o' h₁ in
    let (fresh, e₂) = fail_if-ok _ _ s s₂ (rw e₁ at p₂) in
    let (owner, at_account, same_revision, valid) = fresh_account found a fresh in
    record_dispatch-proposed s t o stored o' a owner authzs at_order (sym is_found ∙ at_account)
      same_revision valid (rw e₂ at h₂)

begin_issuance-checked :
    (ctx : Ctx) (s t : Store) (task : Task) (o o' : Order) (a : Account)
    (authzs : List Authorization)
    → begin_issuance ctx task o a authzs s ≡ (ok o', t)
    → (queued : Task) × (stored : Order) × (get task.id s.tasks ≡ some queued)
      × (queued.fence ≡ task.fence)
      × (get o.id s.orders ≡ some stored)
      × (stored.revision ≡ o.revision)
      × (record_dispatch o a authzs s ≡ (ok o', t))
unfolding begin_issuance
begin_issuance-checked ctx s t task o o' a authzs h =
    let (u₁, s₁, p₁, h₁) = >>=-eq-ok _ _ s t o' h in
    let e₁ = check_ctx-ok ctx s s₁ p₁ in
    let (queued, s₂, p₂, h₂) = >>=-eq-ok _ _ s₁ t o' h₁ in
    let (at_task, fence, e₂) = check_task-ok s s₂ task queued (rw e₁ at p₂) in
    let (u₃, s₃, p₃, h₃) = >>=-eq-ok _ _ s₂ t o' h₂ in
    let (stored, at_order, revision, e₃) = check_order-ok s s₃ o (rw e₂ at p₃) in
    (queued, stored, at_task, fence, at_order, revision, rw e₃ at h₃)

-- A recorded dispatch and what it rests on.
abbrev pub Dispatched : Store → Store → Task → Order → Account → List Authorization → Type 0
Dispatched s t task o a authzs =
    (queued : Task) × (stored : Order) × (owner : Account) × (state : IssuanceState) × (get task.id
        s.tasks
      ≡ some queued)
    × (queued.fence ≡ task.fence)
    × (get o.id s.orders ≡ some stored)
    × (stored.revision ≡ o.revision)
    × (stored.status ≡ OrderStatus.processing)
    × (stored.issuance ≡ none)
    × (get a.id s.accounts ≡ some owner)
    × (owner.revision ≡ a.revision)
    × (owner.status ≡ AccountStatus.valid)
    × (o.issuance ≡ some state)
    × AllValid s state authzs o.authorization_ids
    × (t ≡ store_order (record o { revision = next_u64 o.revision }) s)

-- A dispatch that was recorded rests on what the store held in that moment: the task at the fence
-- of the worker, the order at the worker's revision, processing and not dispatched before, the
-- account valid and at its revision, and every authorization of the order, in the order's
-- sequence, at its revision, valid and not expired. The order is stored with the dispatch, at the
-- next revision.
pub begin_issuance_sound :
    (ctx : Ctx) (s t : Store) (task : Task) (o o' : Order) (a : Account)
    (authzs : List Authorization)
    → begin_issuance ctx task o a authzs s ≡ (ok o', t)
    → Dispatched s t task o a authzs
begin_issuance_sound ctx s t task o o' a authzs h =
    let (queued, stored, at_task, fence, at_order, revision, h') =
      begin_issuance-checked ctx s t task o o' a authzs h in
    let (
      owner, state, processing, none_yet, at_account, same_revision, valid, proposed, all_valid, e,
    ) =
      record_dispatch-ok s t o stored o' a authzs at_order h' in
    (
      queued, stored, owner, state, at_task, fence, at_order, revision, processing, none_yet,
      at_account, same_revision, valid, proposed, all_valid, e,
    )
