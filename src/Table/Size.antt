-- ===== src/Table/Size.antt =====
-- The number of entries of a map.
use go_acme_server.Prelude.{◌+◌, ◌≤◌, ◌≡◌, ◌≢◌, List, [], ◌∷◌, some, arith, length}
use go_acme_server.Table.{Eq, Table, find, without, get, put, remove, size}

module _ {K V : Type 0} ⦃e : Eq K⦄ where
  length-without-le : (k : K) (l : List (K × V)) → length (without k l) ≤ length l
  unfolding without
  length-without-le k [] = omega arith
  length-without-le k ((j, v) ∷ l) = ground (arith, length-without-le k l)

  pub size-put-le : (k : K) (v : V) (t : Table K V) → size (put k v t) ≤ size t + 1
  unfolding put
  size-put-le k v t = omega (arith, length-without-le k t.entries)

  pub size-remove-le : (k : K) (t : Table K V) → size (remove k t) ≤ size t
  unfolding remove
  size-remove-le k t = length-without-le k t.entries

  entries_empty : (l : List (K × V)) → ((k : K) (v : V) → find k l ≢ some v) → length l ≡ 0
  unfolding find
  entries_empty [] h = omega arith
  entries_empty ((k, v) ∷ l) h = absurd (h k v (ground (arith, e.beq_iff k k)))

  -- A map that every read finds nothing in is empty.
  pub size-eq-zero : (t : Table K V) → ((k : K) (v : V) → get k t ≢ some v) → size t ≡ 0
  unfolding get
  size-eq-zero t h = entries_empty t.entries h
