-- ===== src/Memstore/Scheduling.antt =====
-- memstore/memstore.go: which task `ClaimTask` leases, whatever the order of the loop over the map.
use go_acme_server.Prelude.{
  ℕ, ◌<◌, ◌≡◌, ◌≢◌, sym, ◌∙◌, ap, true, false, ◌⊎◌, inl, inr, List, [], ◌∷◌, Option, none, some,
  arith, String, eq_iff, if◌then◌else◌, ltb, ◌=?◌, ◌||◌, ◌&&◌, Bool-cases, Option-cases, some_inj,
  ◌↔◌, subst,
}
use go_acme_server.Exec.{Result, ok, err, not_found, ◌>>=◌}
use go_acme_server.Table.{Table, get, put, get-put, get-put_self, string_eq}
use go_acme_server.Table.Entries.{In, IsMap, In-of_get, get-of_In, put-IsMap}
use go_acme_server.Resource.{Task}
use go_acme_server.Memstore.{Store}
use go_acme_server.Memstore.Tasks.{
  runnable, inserted, precedes, better, best_task, leased_to, claim_task,
}

-- The order on pairs of a time and a position in the queue.
precedes_trans :
    (a m b n c k : ℕ)
    → (ltb b a || (b =? a && ltb n m)) ≡ false
    → (ltb c b || (c =? b && ltb k n)) ≡ false
    → (ltb c a || (c =? a && ltb k m)) ≡ false
precedes_trans a m b n c k p q = ground arith

precedes_asym :
    (a m b n : ℕ)
    → (ltb a b || (a =? b && ltb m n)) ≡ true
    → (ltb b a || (b =? a && ltb n m)) ≡ false
precedes_asym a m b n p = ground arith

module _ (order : Table String ℕ) (now : ℕ) where
  -- The task `u` is no better than what was found.
  abbrev NotBetter : Task → Option (String × Task) → Type 0
  NotBetter u none = ⊥
  NotBetter u (some (k, t)) = precedes order u t ≡ false

  NotBetter-trans :
      (u t b : Task)
      → precedes order u t ≡ false
      → precedes order t b ≡ false
      → precedes order u b ≡ false
  NotBetter-trans u t b p q =
      precedes_trans b.run_at (inserted order b.id) t.run_at (inserted order t.id) u.run_at
        (inserted order u.id) q p

  precedes_irrefl : (u : Task) → precedes order u u ≡ false
  precedes_irrefl u = ground arith

  -- The step of the loop keeps the better one of two.
  better-keeps :
      (u : Task) (k : String) (t : Task) (best : Option (String × Task))
      → NotBetter u best
      → NotBetter u (better order (k, t) best)
  better-keeps u k t none h = absurd h
  better-keeps u k t (some (j, b)) h = elim (Bool-cases (precedes order t b)) [
    | inl p ↦ rw p (
        NotBetter-trans u b t h
          (precedes_asym t.run_at (inserted order t.id) b.run_at (inserted order b.id) p))
    | inr p ↦ rw p h
  ]

  better-not_worse :
      (k : String) (t : Task) (best : Option (String × Task))
      → NotBetter t (better order (k, t) best)
  better-not_worse k t none = precedes_irrefl t
  better-not_worse k t (some (j, b)) = elim (Bool-cases (precedes order t b)) [
    | inl p ↦ rw p (precedes_irrefl t)
    | inr p ↦ rw p p
  ]

  abbrev visit : String → Task → Option (String × Task) → Option (String × Task)
  visit k t best = if runnable now t then better order (k, t) best else best

  visit-keeps :
      (u : Task) (k : String) (t : Task) (best : Option (String × Task))
      → NotBetter u best
      → NotBetter u (visit k t best)
  visit-keeps u k t best h = elim (Bool-cases (runnable now t)) [
    | inl p ↦ rw p (better-keeps u k t best h)
    | inr p ↦ rw p h
  ]

  visit-first :
      (u : Task) (k : String) (t : Task) (best : Option (String × Task))
      → t ≡ u
      → runnable now u ≡ true
      → NotBetter u (visit k t best)
  visit-first u k t best p r = rw p (rw r (better-not_worse k u best))

  better-from :
      (j : String) (u : Task) (best : Option (String × Task)) (e : String × Task)
      → better order (j, u) best ≡ some e
      → (best ≡ some e) ⊎ ((j, u) ≡ e)
  better-from j u none e h = inr (some_inj h)
  better-from j u (some (i, b)) e h = elim (Bool-cases (precedes order u b)) [
    | inl p ↦ inr (some_inj (rw p at h))
    | inr p ↦ inl (rw p at h)
  ]

  visit-from :
      (j : String) (u : Task) (best : Option (String × Task)) (k : String) (t : Task)
      → visit j u best ≡ some (k, t)
      → (best ≡ some (k, t)) ⊎ ((◌≡◌ {A = String × Task} (j, u) (k, t)) × (runnable now t ≡ true))
  visit-from j u best k t h = elim (Bool-cases (runnable now u)) [
    | inl r ↦ elim (better-from j u best (k, t) (rw r at h)) [
      | inl p ↦ inl p
      | inr p ↦ inr (p, rw (ap (λ (e : String × Task). e.1) p) at r)
    ]
    | inr r ↦ inl (rw r at h)
  ]

  best_task-keeps :
      (u : Task) (l : List (String × Task)) (best : Option (String × Task))
      → NotBetter u best
      → NotBetter u (best_task order now best l)
  unfolding best_task
  best_task-keeps u [] best h = h
  best_task-keeps u ((k, t) ∷ l) best h =
      best_task-keeps u l (visit k t best) (visit-keeps u k t best h)

  -- No runnable task of the list precedes the result.
  best_task-first :
      (u : Task) (j : String) (l : List (String × Task)) (best : Option (String × Task))
      → In (j, u) l
      → runnable now u ≡ true
      → NotBetter u (best_task order now best l)
  unfolding best_task
  best_task-first u j [] best i r = absurd i
  best_task-first u j ((k, t) ∷ l) best (inl p) r =
      best_task-keeps u l (visit k t best)
        (visit-first u k t best (ap (λ (e : String × Task). e.1) p) r)
  best_task-first u j ((k, t) ∷ l) best (inr i) r = best_task-first u j l (visit k t best) i r

  -- The result is a runnable task of the list, or the start.
  best_task-from :
      (l : List (String × Task)) (best : Option (String × Task)) (k : String) (t : Task)
      → best_task order now best l ≡ some (k, t)
      → (best ≡ some (k, t)) ⊎ (In (k, t) l × (runnable now t ≡ true))
  unfolding best_task
  best_task-from [] best k t h = inl h
  best_task-from ((j, u) ∷ l) best k t h = elim (best_task-from l (visit j u best) k t h) [
    | inr (i, r) ↦ inr (inr i, r)
    | inl p ↦ elim (visit-from j u best k t p) [ inl q ↦ inl q | inr (q, r) ↦ inr (inl q, r) ]
  ]

ok_pair :
    {t u : Task} {s r : Store}
    → ◌≡◌ {A = Result Task × Store} (ok t, s) (ok u, r)
    → (t ≡ u) × (s ≡ r)
ok_pair h = ground arith

-- Each task is stored once and under its ID.
pub record TasksInv (s : Store) : Type 0 where
  pub is_map : IsMap s.tasks
  pub keyed : (k : String) (t : Task) → get k s.tasks ≡ some t → t.id ≡ k

module _ (s : Store) (inv : TasksInv s) where
  abbrev found_at : ℕ → Option (String × Task)
  found_at now = best_task s.task_insertion now none s.tasks.entries

  found_at-runnable :
      (now : ℕ) (k : String) (t : Task)
      → found_at now ≡ some (k, t)
      → (get k s.tasks ≡ some t) × (runnable now t ≡ true)
  found_at-runnable now k t e =
      elim (best_task-from s.task_insertion now s.tasks.entries none k t e) [
        | inl p ↦ cc
        | inr (i, r) ↦ (get-of_In k t s.tasks inv.is_map i, r)
      ]

  found_at-first :
      (now : ℕ) (k : String) (u : Task)
      → get k s.tasks ≡ some u
      → runnable now u ≡ true
      → NotBetter s.task_insertion now u (found_at now)
  found_at-first now k u p r =
      best_task-first s.task_insertion now u k s.tasks.entries none (In-of_get k u s.tasks p) r

  claim_task-of_none :
      (now until : ℕ) → found_at now ≡ none → claim_task none now until s ≡ (err not_found, s)
  unfolding claim_task ◌>>=◌
  claim_task-of_none now until e = rw e

  claim_task-of_some :
      (now until : ℕ) (k : String) (t : Task)
      → found_at now ≡ some (k, t)
      → claim_task none now until s
        ≡ (ok (leased_to t until), record s { tasks = put k (leased_to t until) s.tasks })
  unfolding claim_task ◌>>=◌
  claim_task-of_some now until k t e = rw e

  -- `ClaimTask` reports that nothing was found exactly when no stored task is runnable.
  pub claim_task-none_iff :
      (now until : ℕ)
      → (claim_task none now until s ≡ (err not_found, s))
        ↔ ((k : String) (u : Task) → get k s.tasks ≡ some u → runnable now u ≡ false)
  claim_task-none_iff now until = (
    λ h k u p. elim (Bool-cases (runnable now u)) [
      | inr r ↦ r
      | inl r ↦ elim (Option-cases (found_at now)) [
        | inl e ↦ absurd (subst (NotBetter s.task_insertion now u) e (found_at-first now k u p r))
        | inr ((j, t), e) ↦ cc (h, claim_task-of_some now until j t e)
      ]
    ],
    λ idle. elim (Option-cases (found_at now)) [
      | inl e ↦ claim_task-of_none now until e
      | inr ((j, t), e) ↦ let (p, r) = found_at-runnable now j t e in cc (r, idle j t p)
    ],
  )

  -- Otherwise it leases a runnable task that no other runnable task precedes: an earlier time, or
  -- the same time and an earlier place in the queue. Only that task changes: its lease, its fence
  -- and its attempts.
  pub claim_task-first :
      (now until : ℕ) (t' : Task) (s' : Store)
      → claim_task none now until s ≡ (ok t', s')
      → (t : Task) × (get t.id s.tasks ≡ some t)
        × (runnable now t ≡ true)
        × (t' ≡ leased_to t until)
        × (s' ≡ record s { tasks = put t.id t' s.tasks })
        × ((k : String) (u : Task)
            → get k s.tasks ≡ some u
            → runnable now u ≡ true
            → precedes s.task_insertion u t ≡ false)
  claim_task-first now until t' s' h = elim (Option-cases (found_at now)) [
    | inl e ↦ cc (h, claim_task-of_none now until e)
    | inr ((j, t), e) ↦
        let (p, r) = found_at-runnable now j t e in
        let same = inv.keyed j t p in
        (
          t,
          subst (λ i. get i s.tasks ≡ some t) (sym same) p,
          r,
          (parts j t e).0,
          cc ((parts j t e).0, (parts j t e).1, same),
          λ k u q r'. subst (NotBetter s.task_insertion now u) e (found_at-first now k u q r'),
        )
  ]
    where
      parts :
          (j : String) (t : Task)
          → found_at now ≡ some (j, t)
          → (t' ≡ leased_to t until) × (s' ≡ record s { tasks = put j (leased_to t until) s.tasks })
      parts j t e = ok_pair (sym h ∙ claim_task-of_some now until j t e)

  claim_task-TasksInv :
      (now until : ℕ) (t' : Task) (s' : Store)
      → claim_task none now until s ≡ (ok t', s')
      → TasksInv s'
  claim_task-TasksInv now until t' s' h =
      let (t, stored, r, leased, written, first) = claim_task-first now until t' s' h in
      rw written (record {
        is_map = put-IsMap t.id t' s.tasks inv.is_map;
        keyed = λ k u p. ground (arith, get-put k t.id t' s.tasks, eq_iff t.id k, inv.keyed k u);
      })

leased-not_runnable :
    (later until : ℕ) (t₀ t : Task)
    → t ≡ leased_to t₀ until
    → later < until
    → ¬ (runnable later t ≡ true)
leased-not_runnable later until t₀ t e early r = ground arith

-- On a store that keeps each task once and under its ID: a claim that follows another one, at a time
-- before the end of its lease, returns another task.
pub claim_task-exclusive :
    (s s' s'' : Store) (now until later later_until : ℕ) (t u : Task)
    → TasksInv s
    → claim_task none now until s ≡ (ok t, s')
    → claim_task none later later_until s' ≡ (ok u, s'')
    → later < until
    → u.id ≢ t.id
claim_task-exclusive s s' s'' now until later later_until t u inv h h' early e =
    let (t₀, p, r, leased, written, f) = claim_task-first s inv now until t s' h in
    let inv' = claim_task-TasksInv s inv now until t s' h in
    let (u₀, p', r', leased', written', f') = claim_task-first s' inv' later later_until u s'' h' in
    let stored =
      ap (λ (x : Store). get u₀.id x.tasks) written
      ∙ get-put_self u₀.id t₀.id t s.tasks (cc (leased, leased', e)) in
    leased-not_runnable later until t₀ t leased early
      (subst (λ x. runnable later x ≡ true) (some_inj (sym p' ∙ stored)) r')

-- On a store that keeps each task once and under its ID: while a runnable task is stored,
-- `ClaimTask` leases one: a stored runnable task that this one does
-- not precede, by an earlier time or by the same time and an earlier place in the queue. Only the
-- leased task changes: its lease, its fence and its attempts.
pub claim_task-earliest :
    (s : Store) (inv : TasksInv s) (now until : ℕ) (k : String) (u : Task)
    (stored : get k s.tasks ≡ some u) (ready : runnable now u ≡ true)
    → (t : Task) × (claim_task none now until s
        ≡ (ok (leased_to t until), record s { tasks = put t.id (leased_to t until) s.tasks }))
      × (get t.id s.tasks ≡ some t)
      × (runnable now t ≡ true)
      × (precedes s.task_insertion u t ≡ false)
claim_task-earliest s inv now until k u stored ready = elim (Option-cases (found_at s inv now)) [
  | inl e ↦
      absurd
        (subst (NotBetter s.task_insertion now u) e (found_at-first s inv now k u stored ready))
  | inr ((j, t), e) ↦
      let (p, r) = found_at-runnable s inv now j t e in
      let same = inv.keyed j t p in
      (
        t,
        cc (claim_task-of_some s inv now until j t e, same),
        subst (λ i. get i s.tasks ≡ some t) (sym same) p,
        r,
        subst (NotBetter s.task_insertion now u) e (found_at-first s inv now k u stored ready),
      )
]
