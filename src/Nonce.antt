-- ===== src/Nonce.antt =====
-- nonce/nonce.go: the single-process nonce manager. The record is the state that the mutex guards.
-- The clock and the random source are arguments: `now` is what `m.now()` returns, and `draws` are
-- the outcomes of the reads of 16 random bytes in order, each encoded or failed.
pub mod Tracking
pub mod Capacity
pub mod SingleUse
use go_acme_server.Prelude.{
  ℕ, zero, suc, ◌+◌, ◌-◌, ◌*◌, ◌/◌, Bool, true, false, not, ◌&&◌, ◌||◌, String, Option, none, some,
  is_some, List, [], ◌∷◌, ◌++◌, if◌then◌else◌, ltb, leb, ◌=?◌, length, drop,
}
use go_acme_server.Exec.{Ctx, CtxError}
use go_acme_server.Table.{Table, get, put, remove, empty, size, string_eq}

pub record Entry : Type 0 where
  pub value : String
  pub expires : ℕ

pub record Manager : Type 0 where
  pub ttl : ℕ
  pub capacity : ℕ
  pub live : Table String ℕ
  pub queue : List Entry
  pub head : ℕ

-- `New`: options that are not positive select the defaults, one hour and 100,000 nonces; 0 stands for
-- each of them.
unfoldable pub new_manager : ℕ → ℕ → Manager
new_manager ttl capacity = record {
  ttl = if ttl =? 0 then 3600 * 1000000000 else ttl;
  capacity = if capacity =? 0 then 100000 else capacity;
  live = empty;
  queue = [];
  head = 0;
}

-- An entry that still names its nonce.
abbrev pub is_current : Table String ℕ → Entry → Bool
is_current live e = elim (get e.value live) [ none ↦ false | some x ↦ x =? e.expires ]

pub current : Table String ℕ → List Entry → List Entry
current live [] = []
current live (e ∷ rest) =
    let kept = current live rest in if is_current live e then e ∷ kept else kept

-- Neither the consumed prefix nor the tombstones behind it have reached their bound.
abbrev pub is_compact : Manager → Bool
is_compact m = ltb m.head (length m.queue / 2) && ltb (length m.queue - size m.live) m.capacity

-- Drops consumed entries once either the prefix or the retained tombstones reach the bound.
unfoldable pub compact : Manager → Manager
unfolding current
compact m =
    if is_compact m then m else record m { queue = current m.live (drop m.head m.queue); head = 0 }

-- The nonce is live and not expired.
abbrev pub unexpired : Option ℕ → ℕ → Bool
unexpired none now = false
unexpired (some x) now = ltb now x

-- The loop of `purge`, over the entries from `head` on.
unfoldable pub purge_loop : Table String ℕ → ℕ → List Entry → ℕ → Table String ℕ × ℕ
purge_loop live head [] now = (live, head)
purge_loop live head (e ∷ rest) now =
    let next = purge_loop (remove e.value live) (head + 1) rest now in
    if unexpired (get e.value live) now then (live, head) else next

unfoldable pub purge : Manager → ℕ → Manager
unfolding purge_loop compact
purge m now =
    let (live, head) = purge_loop m.live m.head (drop m.head m.queue) now in
    compact (record m { live = live; head = head })

-- The loop of `evictOldest`.
unfoldable pub evict_loop : Table String ℕ → ℕ → List Entry → Table String ℕ × ℕ
evict_loop live head [] = (live, head)
evict_loop live head (e ∷ rest) =
    let next = evict_loop live (head + 1) rest in
    if is_some (get e.value live) then (remove e.value live, head + 1) else next

unfoldable pub evict_oldest : Manager → Manager
unfolding evict_loop compact
evict_oldest m =
    let (live, head) = evict_loop m.live m.head (drop m.head m.queue) in
    compact (record m { live = live; head = head })

abbrev pub is_full : Manager → Bool
is_full m = leb m.capacity (size m.live) && ltb m.head (length m.queue)

-- `for len(m.live) >= m.capacity && m.head < len(m.queue)`. Each round shortens what is left of the
-- queue, so its length is fuel enough.
unfoldable pub make_room : ℕ → Manager → Manager
make_room zero m = m
make_room (suc fuel) m = let next = make_room fuel (evict_oldest m) in if is_full m then next else m

pub data Issued : Type 0 where
  issued : String → Issued
  context_error : CtxError → Issued
  -- The random source failed.
  read_error : Issued
  -- Every draw so far was a live nonce: the loop is still running.
  drawing : Issued

unfoldable pub draw : Manager → List (Option String) → ℕ → Issued × Manager
draw m [] now = (drawing, m)
draw m (none ∷ draws) now = (read_error, m)
draw m (some value ∷ draws) now =
    let again = draw m draws now in
    if is_some (get value m.live) then again else (
      issued value,
      record m {
        live = put value (now + m.ttl) m.live;
        queue = m.queue ++ record { value = value; expires = now + m.ttl } ∷ [];
      },
    )

-- `Issue`, after the check of its context.
unfoldable pub prepare : Manager → ℕ → Manager
prepare m now = let p = purge m now in make_room (length p.queue) p

unfoldable pub issue : Ctx → Manager → List (Option String) → ℕ → Issued × Manager
issue none m draws now = draw (prepare m now) draws now
issue (some e) m draws now = (context_error e, m)

pub data Consumed : Type 0 where
  consumed : Bool → Consumed
  context_error : CtxError → Consumed

unfoldable pub consume : Ctx → Manager → String → ℕ → Consumed × Manager
consume (some e) m value now = (context_error e, m)
consume none m value now = elim (get value m.live) [
  | none ↦ (consumed false, m)
  | some expires ↦ (consumed (ltb now expires), record m { live = remove value m.live })
]

-- A call of one of the two methods, with what it meets.
pub data Call : Type 0 where
  issues : Ctx → List (Option String) → ℕ → Call
  consumes : Ctx → String → ℕ → Call

unfoldable pub step : Manager → Call → Manager
step m (issues ctx draws now) = (issue ctx m draws now).1
step m (consumes ctx value now) = (consume ctx m value now).1

unfoldable pub run : Manager → List Call → Manager
run m [] = m
run m (c ∷ cs) = run (step m c) cs
