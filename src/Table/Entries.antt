-- ===== src/Table/Entries.antt =====
-- A loop over a map visits each key once, with the value that a read of the key gives.
use go_acme_server.Prelude.{◌≡◌, refl, ◌⊎◌, inl, inr, List, [], ◌∷◌, none, some, arith, Bool-cases}
use go_acme_server.Table.{Eq, Table, find, without, get, put, remove}

module _ {A : Type 0} where
  abbrev pub In : A → List A → Type 0
  In a [] = ⊥
  In a (x ∷ xs) = (x ≡ a) ⊎ In a xs

module _ {K V : Type 0} ⦃e : Eq K⦄ where
  -- No key twice.
  abbrev pub Distinct : List (K × V) → Type 0
  Distinct [] = Unit
  Distinct ((k, v) ∷ l) = (find k l ≡ none) × Distinct l

  find-In : (k : K) (v : V) (l : List (K × V)) → find k l ≡ some v → In (k, v) l
  unfolding find
  find-In k v [] h = cc
  find-In k v ((j, w) ∷ l) h = elim (Bool-cases (e.beq j k)) [
    | inl same ↦ inl (ground (arith, e.beq_iff j k))
    | inr other ↦ inr (find-In k v l (rw (other) at h))
  ]

  In-find : (k : K) (v : V) (l : List (K × V)) → Distinct l → In (k, v) l → find k l ≡ some v
  unfolding find
  In-find k v [] d h = absurd h
  In-find k v ((j, w) ∷ l) d (inl p) = ground (arith, e.beq_iff j k)
  In-find k v ((j, w) ∷ l) d (inr h) = ground (arith, e.beq_iff j k, In-find k v l d.1 h)

  find-without-none : (j k : K) (l : List (K × V)) → find j l ≡ none → find j (without k l) ≡ none
  unfolding find without
  find-without-none j k [] h = refl
  find-without-none j k ((i, v) ∷ l) h = ground (arith, find-without-none j k l)

  find-without_self : (k : K) (l : List (K × V)) → find k (without k l) ≡ none
  unfolding find without
  find-without_self k [] = refl
  find-without_self k ((i, v) ∷ l) = ground (arith, find-without_self k l)

  Distinct-without : (k : K) (l : List (K × V)) → Distinct l → Distinct (without k l)
  unfolding without
  Distinct-without k [] d = tt
  Distinct-without k ((i, v) ∷ l) d =
      ground (arith, Distinct-without k l d.1, find-without-none i k l d.0)

  abbrev pub IsMap : Table K V → Type 0
  IsMap t = Distinct t.entries

  pub put-IsMap : (k : K) (v : V) (t : Table K V) → IsMap t → IsMap (put k v t)
  unfolding put
  put-IsMap k v t d = (find-without_self k t.entries, Distinct-without k t.entries d)

  pub remove-IsMap : (k : K) (t : Table K V) → IsMap t → IsMap (remove k t)
  unfolding remove
  remove-IsMap k t d = Distinct-without k t.entries d

  pub In-of_get : (k : K) (v : V) (t : Table K V) → get k t ≡ some v → In (k, v) t.entries
  unfolding get
  In-of_get k v t h = find-In k v t.entries h

  pub get-of_In : (k : K) (v : V) (t : Table K V) → IsMap t → In (k, v) t.entries → get k t ≡ some v
  unfolding get
  get-of_In k v t d h = In-find k v t.entries d h
