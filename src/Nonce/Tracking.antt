-- ===== src/Nonce/Tracking.antt =====
-- nonce/nonce.go: every live nonce has an entry in the queue, so that it can be evicted.
use go_acme_server.Prelude.{
  ℕ, zero, suc, ◌+◌, ◌-◌, ◌≤◌, ◌≡◌, refl, sym, ap, subst, inl, inr, true, String, ◌==◌, eq_iff,
  Option, none, some, List, [], ◌∷◌, ◌++◌, arith, Bool-cases, Option-cases, is_some, length, drop,
}
use go_acme_server.Exec.{Ctx}
use go_acme_server.Table.{Table, get, put, remove, get-put, get-remove, get-empty, string_eq}
use go_acme_server.Table.Entries.{In}
use go_acme_server.Nonce.{
  Entry, Manager, new_manager, is_compact, is_full, is_current, current, compact, unexpired,
  purge_loop, purge, evict_loop, evict_oldest, make_room, draw, prepare, issue, consume,
}

-- Each live nonce stands among the entries, with its expiry.
abbrev pub TracksIn : Table String ℕ → List Entry → Type 0
TracksIn live es =
    (v : String) (x : ℕ) → get v live ≡ some x → In (record { value = v; expires = x }) es

pub drop-suc :
    (n : ℕ) (xs : List Entry) {e : Entry} {rest : List Entry}
    → drop n xs ≡ e ∷ rest
    → drop (n + 1) xs ≡ rest
drop-suc zero [] h = cc
drop-suc zero (x ∷ xs) h = cc h
drop-suc (suc n) [] h = cc
drop-suc (suc n) (x ∷ xs) h = rw (plus_one n) (drop-suc n xs h)
  where
    plus_one : (n : ℕ) → suc n + 1 ≡ suc (n + 1)
    plus_one n = omega arith

TracksIn-remove :
    (live : Table String ℕ) (e : Entry) (rest : List Entry)
    → TracksIn live (e ∷ rest)
    → TracksIn (remove e.value live) rest
TracksIn-remove live e rest t v x h = elim (t v x (ground (arith, get-remove v e.value live))) [
  | inl p ↦
      absurd
        (ground (arith, get-remove v e.value live, eq_iff e.value v, ap (λ (e : Entry). e.value) p))
  | inr i ↦ i
]

TracksIn-skip :
    (live : Table String ℕ) (e : Entry) (rest : List Entry)
    → get e.value live ≡ none
    → TracksIn live (e ∷ rest)
    → TracksIn live rest
TracksIn-skip live e rest n t v x h = elim (t v x h) [
  | inl p ↦ absurd (ground (arith, ap (λ (e : Entry). get e.value live) p))
  | inr i ↦ i
]

pub purge_loop-TracksIn :
    (queue : List Entry) (live : Table String ℕ) (head : ℕ) (es : List Entry) (now : ℕ)
    → drop head queue ≡ es
    → TracksIn live es
    → TracksIn (purge_loop live head es now).0 (drop (purge_loop live head es now).1 queue)
unfolding purge_loop
purge_loop-TracksIn queue live head [] now d t = rw d t
purge_loop-TracksIn queue live head (e ∷ rest) now d t =
    elim (Bool-cases (unexpired (get e.value live) now)) [
      | inl stays ↦ rw stays (rw d t)
      | inr goes ↦ rw goes (
          purge_loop-TracksIn queue (remove e.value live) (head + 1) rest now
            (drop-suc head queue d) (TracksIn-remove live e rest t))
    ]

pub evict_loop-TracksIn :
    (queue : List Entry) (live : Table String ℕ) (head : ℕ) (es : List Entry)
    → drop head queue ≡ es
    → TracksIn live es
    → TracksIn (evict_loop live head es).0 (drop (evict_loop live head es).1 queue)
unfolding evict_loop
evict_loop-TracksIn queue live head [] d t = rw d t
evict_loop-TracksIn queue live head (e ∷ rest) d t = elim (Option-cases (get e.value live)) [
  | inl gone ↦ rw gone (
      evict_loop-TracksIn queue live (head + 1) rest (drop-suc head queue d)
        (TracksIn-skip live e rest gone t))
  | inr (x, found) ↦ rw found (rw (drop-suc head queue d) (TracksIn-remove live e rest t))
]

current-TracksIn :
    (live : Table String ℕ) (es : List Entry) (v : String) (x : ℕ)
    → get v live ≡ some x
    → In (record { value = v; expires = x }) es
    → In (record { value = v; expires = x }) (current live es)
unfolding current
current-TracksIn live [] v x h i = absurd i
current-TracksIn live (e ∷ rest) v x h (inl p) =
    let named : is_current live e ≡ true =
      subst (λ e. is_current live e ≡ true) (sym p) (rw (h, is_current) (ground arith)) in
    rw named (inl p)
current-TracksIn live (e ∷ rest) v x h (inr i) = elim (Bool-cases (is_current live e)) [
  | inl kept ↦ rw kept (inr (current-TracksIn live rest v x h i))
  | inr dropped ↦ rw dropped (current-TracksIn live rest v x h i)
]

pub length-drop : (n : ℕ) (xs : List Entry) → length (drop n xs) ≡ length xs - n
length-drop zero xs = omega arith
length-drop (suc n) [] = omega arith
length-drop (suc n) (x ∷ xs) = omega (arith, length-drop n xs)

pub purge_loop-head :
    (live : Table String ℕ) (head : ℕ) (es : List Entry) (now : ℕ)
    → (purge_loop live head es now).1 ≤ head + length es
unfolding purge_loop
purge_loop-head live head [] now = omega arith
purge_loop-head live head (e ∷ rest) now =
    ground (arith, purge_loop-head (remove e.value live) (head + 1) rest now)

pub evict_loop-head :
    (live : Table String ℕ) (head : ℕ) (es : List Entry)
    → (evict_loop live head es).1 ≤ head + length es
unfolding evict_loop
evict_loop-head live head [] = omega arith
evict_loop-head live head (e ∷ rest) = ground (arith, evict_loop-head live (head + 1) rest)

-- The head stays in the queue, and what stands from there on tracks the live nonces.
pub record IsTracked (m : Manager) : Type 0 where
  pub bounded : m.head ≤ length m.queue
  pub tracks : TracksIn m.live (drop m.head m.queue)

pub compact-IsTracked : (m : Manager) → IsTracked m → IsTracked (compact m)
unfolding compact
compact-IsTracked m t = elim (Bool-cases (is_compact m)) [
  | inl e ↦ rw e t
  | inr e ↦ rw e (record {
    bounded = omega arith;
    tracks = λ v x h. current-TracksIn m.live (drop m.head m.queue) v x h (t.tracks v x h);
  })
]

pub purge-IsTracked : (m : Manager) (now : ℕ) → IsTracked m → IsTracked (purge m now)
unfolding purge
purge-IsTracked m now t = compact-IsTracked _ (record {
  bounded = omega (
    arith,
    purge_loop-head m.live m.head (drop m.head m.queue) now,
    length-drop m.head m.queue,
    t.bounded,
  );
  tracks = purge_loop-TracksIn m.queue m.live m.head (drop m.head m.queue) now refl t.tracks;
})

pub evict_oldest-IsTracked : (m : Manager) → IsTracked m → IsTracked (evict_oldest m)
unfolding evict_oldest
evict_oldest-IsTracked m t = compact-IsTracked _ (record {
  bounded = omega (
    arith,
    evict_loop-head m.live m.head (drop m.head m.queue),
    length-drop m.head m.queue,
    t.bounded,
  );
  tracks = evict_loop-TracksIn m.queue m.live m.head (drop m.head m.queue) refl t.tracks;
})

make_room-IsTracked : (fuel : ℕ) (m : Manager) → IsTracked m → IsTracked (make_room fuel m)
unfolding make_room
make_room-IsTracked zero m t = t
make_room-IsTracked (suc fuel) m t = elim (Bool-cases (is_full m)) [
  | inl e ↦ rw e (make_room-IsTracked fuel (evict_oldest m) (evict_oldest-IsTracked m t))
  | inr e ↦ rw e t
]

pub prepare-IsTracked : (m : Manager) (now : ℕ) → IsTracked m → IsTracked (prepare m now)
unfolding prepare
prepare-IsTracked m now t = make_room-IsTracked _ (purge m now) (purge-IsTracked m now t)

In-append_left : (e : Entry) (xs ys : List Entry) → In e xs → In e (xs ++ ys)
In-append_left e [] ys i = absurd i
In-append_left e (x ∷ xs) ys (inl p) = inl p
In-append_left e (x ∷ xs) ys (inr i) = inr (In-append_left e xs ys i)

In-append_last : (e : Entry) (xs : List Entry) → In e (xs ++ e ∷ [])
In-append_last e [] = inl refl
In-append_last e (x ∷ xs) = inr (In-append_last e xs)

drop-append : (n : ℕ) (xs ys : List Entry) → n ≤ length xs → drop n (xs ++ ys) ≡ drop n xs ++ ys
drop-append zero xs ys h = refl
drop-append (suc n) [] ys h = absurd (omega arith)
drop-append (suc n) (x ∷ xs) ys h = drop-append n xs ys (omega arith)

length-append_last : (xs : List Entry) (e : Entry) → length (xs ++ e ∷ []) ≡ length xs + 1
length-append_last [] e = omega arith
length-append_last (x ∷ xs) e = omega (arith, length-append_last xs e)

draw-IsTracked :
    (m : Manager) (draws : List (Option String)) (now : ℕ)
    → IsTracked m
    → IsTracked (draw m draws now).1
unfolding draw
draw-IsTracked m [] now t = t
draw-IsTracked m (none ∷ draws) now t = t
draw-IsTracked m (some value ∷ draws) now t = elim (Bool-cases (is_some (get value m.live))) [
  | inl used ↦ rw used (draw-IsTracked m draws now t)
  | inr fresh ↦
      rw fresh (record { bounded = omega (arith, length-append_last m.queue e); tracks = tracks })
]
  where
    e : Entry
    e = record { value = value; expires = now + m.ttl }

    tracks : TracksIn (put value (now + m.ttl) m.live) (drop m.head (m.queue ++ e ∷ []))
    tracks v x h =
        rw (drop-append m.head m.queue (e ∷ []) t.bounded) (elim (Bool-cases (value == v)) [
          | inl same ↦
              subst (λ e'. In e' (drop m.head m.queue ++ e ∷ []))
                (ground (arith, get-put v value (now + m.ttl) m.live, eq_iff value v))
                (In-append_last e (drop m.head m.queue))
          | inr other ↦
              In-append_left _ (drop m.head m.queue) (e ∷ [])
                (t.tracks v x (ground (arith, get-put v value (now + m.ttl) m.live)))
        ])

pub issue-IsTracked :
    (ctx : Ctx) (m : Manager) (draws : List (Option String)) (now : ℕ)
    → IsTracked m
    → IsTracked (issue ctx m draws now).1
unfolding issue
issue-IsTracked none m draws now t =
    draw-IsTracked (prepare m now) draws now (prepare-IsTracked m now t)
issue-IsTracked (some e) m draws now t = t

pub consume-IsTracked :
    (ctx : Ctx) (m : Manager) (value : String) (now : ℕ)
    → IsTracked m
    → IsTracked (consume ctx m value now).1
unfolding consume
consume-IsTracked (some e) m value now t = t
consume-IsTracked none m value now t = elim (Option-cases (get value m.live)) [
  | inl gone ↦ rw (gone, consume) t
  | inr (x, found) ↦
      rw (found, consume)
        (record {
          bounded = t.bounded;
          tracks = λ v y h. t.tracks v y (ground (arith, get-remove v value m.live));
        })
]

pub new_manager-IsTracked : (ttl capacity : ℕ) → IsTracked (new_manager ttl capacity)
unfolding new_manager
new_manager-IsTracked ttl capacity = record {
  bounded = omega arith;
  tracks = λ v x h. cc (h, get-empty {V = ℕ} v);
}
