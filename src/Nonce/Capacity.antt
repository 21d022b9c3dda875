-- ===== src/Nonce/Capacity.antt =====
-- nonce/nonce.go: the number of outstanding nonces never passes the capacity.
use go_acme_server.Prelude.{
  ℕ, zero, suc, ◌+◌, ◌-◌, ◌≤◌, ◌<◌, ◌≡◌, refl, ◌∙◌, subst, inl, inr, false, String, Option, none,
  some, List, [], ◌∷◌, arith, if◌then◌else◌, Bool-cases, length, drop, ◌=?◌,
}
use go_acme_server.Table.{Table, size, string_eq}
use go_acme_server.Table.Entries.{In}
use go_acme_server.Table.Size.{size-put-le, size-remove-le, size-eq-zero}
use go_acme_server.Nonce.{
  Entry, Manager, new_manager, is_compact, is_full, current, compact, purge, evict_loop,
  evict_oldest, make_room, draw, prepare, issue, consume, Call, issues, consumes, step, run,
}
use go_acme_server.Nonce.Tracking.{
  IsTracked, length-drop, evict_loop-head, prepare-IsTracked, issue-IsTracked, consume-IsTracked,
  new_manager-IsTracked,
}

length-current-le : (live : Table String ℕ) (es : List Entry) → length (current live es) ≤ length es
unfolding current
length-current-le live [] = omega arith
length-current-le live (e ∷ rest) = ground (arith, length-current-le live rest)

-- What is left of the queue.
abbrev left : Manager → ℕ
left m = length m.queue - m.head

left-compact-le : (m : Manager) → left (compact m) ≤ left m
unfolding compact
left-compact-le m = elim (Bool-cases (is_compact m)) [
  | inl e ↦ rw e (omega arith)
  | inr e ↦
      rw e
        (omega (arith, length-current-le m.live (drop m.head m.queue), length-drop m.head m.queue))
]

evict_loop-advances :
    (live : Table String ℕ) (head : ℕ) (es : List Entry)
    → 0 < length es
    → head < (evict_loop live head es).1
unfolding evict_loop
evict_loop-advances live head [] h = absurd (omega arith)
evict_loop-advances live head (e ∷ []) h = ground arith
evict_loop-advances live head (e ∷ d ∷ rest) h =
    ground (arith, evict_loop-advances live (head + 1) (d ∷ rest) (omega arith))

left-evict_oldest-lt : (m : Manager) → m.head < length m.queue → left (evict_oldest m) < left m
unfolding evict_oldest
left-evict_oldest-lt m h = omega (
  arith,
  left-compact-le (record m {
    live = (evict_loop m.live m.head (drop m.head m.queue)).0;
    head = (evict_loop m.live m.head (drop m.head m.queue)).1;
  }),
  evict_loop-advances m.live m.head (drop m.head m.queue)
      (omega (arith, length-drop m.head m.queue)),
  evict_loop-head m.live m.head (drop m.head m.queue),
  length-drop m.head m.queue,
)

-- With fuel for what is left of the queue the loop ends by its test.
make_room-not_full : (fuel : ℕ) (m : Manager) → left m ≤ fuel → is_full (make_room fuel m) ≡ false
unfolding make_room
make_room-not_full zero m h = ground arith
make_room-not_full (suc fuel) m h = elim (Bool-cases (is_full m)) [
  | inl e ↦ rw e (
      make_room-not_full fuel (evict_oldest m)
        (omega (arith, left-evict_oldest-lt m (ground arith))))
  | inr e ↦ rw e e
]

drop-all : (n : ℕ) (xs : List Entry) → length xs ≤ n → drop n xs ≡ []
drop-all zero [] h = refl
drop-all zero (x ∷ xs) h = absurd (omega arith)
drop-all (suc n) [] h = refl
drop-all (suc n) (x ∷ xs) h = drop-all n xs (omega arith)

-- A queue with nothing left tracks no nonce.
tracked_empty : (m : Manager) → IsTracked m → length m.queue ≤ m.head → size m.live ≡ 0
tracked_empty m t h = size-eq-zero m.live λ v x p.
    let i = t.tracks v x p in
    subst (λ es. In (record { value = v; expires = x }) es) (drop-all m.head m.queue h) i

capacity-compact : (m : Manager) → (compact m).capacity ≡ m.capacity
unfolding compact
capacity-compact m = ground arith

capacity-make_room : (fuel : ℕ) (m : Manager) → (make_room fuel m).capacity ≡ m.capacity
unfolding make_room evict_oldest
capacity-make_room zero m = refl
capacity-make_room (suc fuel) m = elim (Bool-cases (is_full m)) [
  | inl e ↦ rw e (capacity-make_room fuel (evict_oldest m) ∙ capacity-compact _)
  | inr e ↦ rw e
]

capacity-prepare : (m : Manager) (now : ℕ) → (prepare m now).capacity ≡ m.capacity
unfolding prepare purge
capacity-prepare m now = capacity-make_room _ (purge m now) ∙ capacity-compact _

capacity-draw :
    (m : Manager) (draws : List (Option String)) (now : ℕ)
    → (draw m draws now).1.capacity ≡ m.capacity
unfolding draw
capacity-draw m [] now = refl
capacity-draw m (none ∷ draws) now = refl
capacity-draw m (some v ∷ draws) now = ground (arith, capacity-draw m draws now)

prepare-not_full : (m : Manager) (now : ℕ) → is_full (prepare m now) ≡ false
unfolding prepare
prepare-not_full m now = make_room-not_full _ (purge m now) (omega arith)

prepare-room :
    (m : Manager) (now : ℕ) → IsTracked m → 0 < m.capacity → size (prepare m now).live < m.capacity
prepare-room m now t h = ground (
  arith,
  capacity-prepare m now,
  prepare-not_full m now,
  tracked_empty (prepare m now) (prepare-IsTracked m now t),
)

size-draw-le :
    (m : Manager) (draws : List (Option String)) (now : ℕ)
    → size (draw m draws now).1.live ≤ size m.live + 1
unfolding draw
size-draw-le m [] now = omega arith
size-draw-le m (none ∷ draws) now = omega arith
size-draw-le m (some v ∷ draws) now =
    ground (arith, size-draw-le m draws now, size-put-le v (now + m.ttl) m.live)

-- A manager of the given capacity whose queue tracks its nonces, which are not too many.
pub record IsBounded (capacity : ℕ) (m : Manager) : Type 0 where
  pub tracked : IsTracked m
  pub configured : m.capacity ≡ capacity
  pub within : size m.live ≤ capacity

step-IsBounded :
    (capacity : ℕ) (m : Manager) (c : Call)
    → 0 < capacity
    → IsBounded capacity m
    → IsBounded capacity (step m c)
unfolding step issue consume
step-IsBounded capacity m (issues none draws now) pos b = record {
  tracked = issue-IsTracked none m draws now b.tracked;
  configured = capacity-draw _ draws now ∙ capacity-prepare m now ∙ b.configured;
  within = omega (
    arith,
    size-draw-le (prepare m now) draws now,
    prepare-room m now b.tracked (omega (arith, b.configured)),
    b.configured,
  );
}
step-IsBounded capacity m (issues (some e) draws now) pos b = b
step-IsBounded capacity m (consumes (some e) value now) pos b = b
step-IsBounded capacity m (consumes none value now) pos b = record {
  tracked = consume-IsTracked none m value now b.tracked;
  configured = ground (arith, b.configured);
  within = ground (arith, size-remove-le value m.live, b.within);
}

run-IsBounded :
    (capacity : ℕ) (m : Manager) (cs : List Call)
    → 0 < capacity
    → IsBounded capacity m
    → IsBounded capacity (run m cs)
unfolding run
run-IsBounded capacity m [] pos b = b
run-IsBounded capacity m (c ∷ cs) pos b =
    run-IsBounded capacity (step m c) cs pos (step-IsBounded capacity m c pos b)

-- After any calls on a new manager of capacity `n` the outstanding nonces are at most `n`, or at
-- most 100,000 where `n` is 0, and each of them still has its entry in the queue.
pub run-new_manager-IsBounded :
    (ttl n : ℕ) (cs : List Call)
    → IsBounded (if n =? 0 then 100000 else n) (run (new_manager ttl n) cs)
unfolding new_manager
run-new_manager-IsBounded ttl n cs =
    run-IsBounded _ (new_manager ttl n) cs (ground arith)
      (record { tracked = new_manager-IsTracked ttl n; configured = refl; within = omega arith })
