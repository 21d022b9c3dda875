-- ===== src/Nonce/SingleUse.antt =====
-- nonce/nonce.go: a nonce is good for one request.
use go_acme_server.Prelude.{
  ℕ, zero, suc, ◌+◌, ◌≡◌, ◌≢◌, refl, ◌∙◌, ap, inl, inr, false, String, eq_iff, eq_refl, Option,
  none, some, List, [], ◌∷◌, ◌++◌, arith, Bool-cases, Option-cases, ltb, drop, some_inj,
}
use go_acme_server.Table.{Table, get, put, remove, get-put, get-remove, string_eq}
use go_acme_server.Nonce.{
  Entry, Manager, is_full, compact, purge_loop, purge, evict_loop, evict_oldest, make_room, draw,
  prepare, issue, consume, issued, consumed, Call, issues, consumes, step, run,
}
use go_acme_server.Table.Entries.{In}

-- Nothing but an issue brings a nonce back.
abbrev Gone : String → Manager → Type 0
Gone v m = get v m.live ≡ none

purge_loop-Gone :
    (v : String) (live : Table String ℕ) (head : ℕ) (es : List Entry) (now : ℕ)
    → get v live ≡ none
    → get v (purge_loop live head es now).0 ≡ none
unfolding purge_loop
purge_loop-Gone v live head [] now g = g
purge_loop-Gone v live head (e ∷ rest) now g =
    ground (
      arith,
      purge_loop-Gone v (remove e.value live) (head + 1) rest now,
      get-remove v e.value live,
    )

evict_loop-Gone :
    (v : String) (live : Table String ℕ) (head : ℕ) (es : List Entry)
    → get v live ≡ none
    → get v (evict_loop live head es).0 ≡ none
unfolding evict_loop
evict_loop-Gone v live head [] g = g
evict_loop-Gone v live head (e ∷ rest) g =
    ground (arith, evict_loop-Gone v live (head + 1) rest, get-remove v e.value live)

compact-Gone : (v : String) (m : Manager) → Gone v m → Gone v (compact m)
unfolding compact
compact-Gone v m g = ground arith

make_room-Gone : (v : String) (fuel : ℕ) (m : Manager) → Gone v m → Gone v (make_room fuel m)
unfolding make_room evict_oldest
make_room-Gone v zero m g = g
make_room-Gone v (suc fuel) m g = elim (Bool-cases (is_full m)) [
  | inl e ↦ rw e (
      make_room-Gone v fuel (evict_oldest m)
        (compact-Gone v _ (evict_loop-Gone v m.live m.head (drop m.head m.queue) g)))
  | inr e ↦ rw e g
]

prepare-Gone : (v : String) (m : Manager) (now : ℕ) → Gone v m → Gone v (prepare m now)
unfolding prepare purge
prepare-Gone v m now g =
    make_room-Gone v _ (purge m now)
      (compact-Gone v _ (purge_loop-Gone v m.live m.head (drop m.head m.queue) now g))

-- The random source does not produce the value.
abbrev pub Avoids : String → List (Option String) → Type 0
Avoids v [] = Unit
Avoids v (none ∷ draws) = Avoids v draws
Avoids v (some w ∷ draws) = (w ≢ v) × Avoids v draws

draw-Gone :
    (v : String) (m : Manager) (draws : List (Option String)) (now : ℕ)
    → Avoids v draws
    → Gone v m
    → Gone v (draw m draws now).1
unfolding draw
draw-Gone v m [] now a g = g
draw-Gone v m (none ∷ draws) now a g = g
draw-Gone v m (some w ∷ draws) now a g =
    ground (arith, draw-Gone v m draws now a.1, get-put v w (now + m.ttl) m.live, eq_iff w v, a.0)

abbrev pub CallAvoids : String → Call → Type 0
CallAvoids v (issues ctx draws now) = Avoids v draws
CallAvoids v (consumes ctx value now) = Unit

step-Gone : (v : String) (m : Manager) (c : Call) → CallAvoids v c → Gone v m → Gone v (step m c)
unfolding step issue consume
step-Gone v m (issues none draws now) a g =
    draw-Gone v (prepare m now) draws now a (prepare-Gone v m now g)
step-Gone v m (issues (some e) draws now) a g = g
step-Gone v m (consumes (some e) value now) a g = g
step-Gone v m (consumes none value now) a g = ground (arith, get-remove v value m.live)

abbrev pub AllAvoid : String → List Call → Type 0
AllAvoid v [] = Unit
AllAvoid v (c ∷ cs) = CallAvoids v c × AllAvoid v cs

run-Gone :
    (v : String) (m : Manager) (cs : List Call) → AllAvoid v cs → Gone v m → Gone v (run m cs)
unfolding run
run-Gone v m [] a g = g
run-Gone v m (c ∷ cs) a g = run-Gone v (step m c) cs a.1 (step-Gone v m c a.0 g)

consume-Gone : (v : String) (m : Manager) (now : ℕ) → Gone v (consume none m v now).1
unfolding consume
consume-Gone v m now = ground (arith, get-remove v v m.live, eq_refl v)

-- Once a nonce has been presented, whatever the answer was, it is refused for good: after any
-- later calls in which the random source does not produce the same value again, a second
-- presentation is answered false.
pub consume-single_use :
    (m : Manager) (v : String) (now later : ℕ) (cs : List Call)
    → AllAvoid v cs
    → (consume none (run (consume none m v now).1 cs) v later).0 ≡ consumed false
unfolding consume
consume-single_use m v now later cs a =
    rw (run-Gone v (consume none m v now).1 cs a (consume-Gone v m now), consume)

draw-issued :
    (m : Manager) (draws : List (Option String)) (now : ℕ) (v : String) (m' : Manager)
    → draw m draws now ≡ (issued v, m')
    → (get v m.live ≡ none) × (get v m'.live ≡ some (now + m.ttl))
unfolding draw
draw-issued m [] now v m' h = absurd (ground arith)
draw-issued m (none ∷ draws) now v m' h = absurd (ground arith)
draw-issued m (some w ∷ draws) now v m' h =
    ground (arith, draw-issued m draws now v m', get-put v w (now + m.ttl) m.live, eq_refl v)

ttl-evict_oldest : (m : Manager) → (evict_oldest m).ttl ≡ m.ttl
unfolding evict_oldest compact
ttl-evict_oldest m = ground arith

ttl-purge : (m : Manager) (now : ℕ) → (purge m now).ttl ≡ m.ttl
unfolding purge compact
ttl-purge m now = ground arith

ttl-make_room : (fuel : ℕ) (m : Manager) → (make_room fuel m).ttl ≡ m.ttl
unfolding make_room
ttl-make_room zero m = refl
ttl-make_room (suc fuel) m = elim (Bool-cases (is_full m)) [
  | inl e ↦ rw e (ttl-make_room fuel (evict_oldest m) ∙ ttl-evict_oldest m)
  | inr e ↦ rw e
]

ttl-prepare : (m : Manager) (now : ℕ) → (prepare m now).ttl ≡ m.ttl
unfolding prepare
ttl-prepare m now = ttl-make_room _ (purge m now) ∙ ttl-purge m now

-- A nonce just issued is answered true by its first presentation exactly while its lifetime has
-- not passed.
pub consume-issue :
    (m m' : Manager) (draws : List (Option String)) (now later : ℕ) (v : String)
    → issue none m draws now ≡ (issued v, m')
    → (consume none m' v later).0 ≡ consumed (ltb later (now + m.ttl))
unfolding consume issue
consume-issue m m' draws now later v h =
    rw ((draw-issued (prepare m now) draws now v m' h).1, consume)
      (ap (λ t. consumed (ltb later (now + t))) (ttl-prepare m now))

-- No read of random bytes fails.
abbrev pub AllRead : List (Option String) → Type 0
AllRead [] = Unit
AllRead (none ∷ draws) = ⊥
AllRead (some v ∷ draws) = AllRead draws

draw-total :
    (m : Manager) (draws : List (Option String)) (now : ℕ) (w : String)
    → AllRead draws
    → In (some w) draws
    → get w m.live ≡ none
    → (v : String) × (m' : Manager) × (draw m draws now ≡ (issued v, m'))
unfolding draw
draw-total m [] now w r i g = absurd i
draw-total m (none ∷ draws) now w r i g = absurd r
draw-total m (some u ∷ draws) now w r i g = elim (Option-cases (get u m.live)) [
  | inl fresh ↦ (
    u,
    record m {
      live = put u (now + m.ttl) m.live;
      queue = m.queue ++ record { value = u; expires = now + m.ttl } ∷ [];
    },
    rw fresh,
  )
  | inr (x, used) ↦ rw used (
      draw-total m draws now w r
        (elim i [ inl p ↦ absurd (ground (arith, some_inj p)) | inr j ↦ j ]) g)
]

-- The loop of `Issue` ends with a nonce as soon as the random source, which does not fail, has
-- produced a value that is not outstanding.
pub issue-total :
    (m : Manager) (draws : List (Option String)) (now : ℕ) (w : String)
    → AllRead draws
    → In (some w) draws
    → get w (prepare m now).live ≡ none
    → (v : String) × (m' : Manager) × (issue none m draws now ≡ (issued v, m'))
unfolding issue
issue-total m draws now w r i g = draw-total (prepare m now) draws now w r i g
