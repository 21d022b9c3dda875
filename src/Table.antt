-- ===== src/Table.antt =====
-- Go's maps, as tables with one entry for a key. A read of a missing key is `none`.
pub mod Entries
pub mod Size
use go_acme_server.Prelude.{
  ℕ, length, ◌≡◌, ◌≢◌, refl, Bool, true, ◌↔◌, List, [], ◌∷◌, Option, none, some, String, ◌==◌,
  eq_iff, if◌then◌else◌, arith,
}

pub record Eq {ℓ} (A : Type ℓ) : Type ℓ where
  pub beq : A → A → Bool
  pub beq_iff : (a b : A) → (beq a b ≡ true) ↔ (a ≡ b)

instance abbrev pub string_eq : Eq String
string_eq = record { beq = ◌==◌; beq_iff = eq_iff }

pub record Table {ℓ} (K : Type ℓ) (V : Type ℓ) : Type ℓ where
  pub entries : List (K × V)

module _ {ℓ} {K V : Type ℓ} ⦃e : Eq K⦄ where
  pub find : K → List (K × V) → Option V
  find k [] = none
  find k ((j, v) ∷ l) = if e.beq j k then some v else find k l

  pub without : K → List (K × V) → List (K × V)
  without k [] = []
  without k ((j, v) ∷ l) = let rest = without k l in if e.beq j k then rest else (j, v) ∷ rest

  find-without :
      (k j : K) (l : List (K × V)) → find j (without k l) ≡ (if e.beq k j then none else find j l)
  unfolding find without
  find-without k j [] = ground arith
  find-without k j ((i, v) ∷ l) =
      ground (arith, find-without k j l, e.beq_iff i k, e.beq_iff i j, e.beq_iff k j)

  unfoldable pub get : K → Table K V → Option V
  unfolding find
  get k t = find k t.entries

  -- `delete(m, k)`
  unfoldable pub remove : K → Table K V → Table K V
  unfolding without
  remove k t = record { entries = without k t.entries }

  -- `m[k] = v`
  unfoldable pub put : K → V → Table K V → Table K V
  unfolding without
  put k v t = record { entries = (k, v) ∷ without k t.entries }

  pub get-remove :
      (j k : K) (t : Table K V) → get j (remove k t) ≡ (if e.beq k j then none else get j t)
  unfolding get remove
  get-remove j k t = find-without k j t.entries

  pub get-put :
      (j k : K) (v : V) (t : Table K V)
      → get j (put k v t) ≡ (if e.beq k j then some v else get j t)
  unfolding get put
  get-put j k v t = ground (arith, find-without k j t.entries)

  pub get-put_self : (j k : K) (v : V) (t : Table K V) → k ≡ j → get j (put k v t) ≡ some v
  get-put_self j k v t same = ground (arith, get-put j k v t, e.beq_iff k j)

  pub get-put_ne : (j k : K) (v : V) (t : Table K V) → k ≢ j → get j (put k v t) ≡ get j t
  get-put_ne j k v t other = ground (arith, get-put j k v t, e.beq_iff k j)

module _ {ℓ} {K V : Type ℓ} where
  -- `len(m)`
  abbrev pub size : Table K V → ℕ
  size t = length t.entries

  abbrev pub empty : Table K V
  empty = record { entries = [] }

pub get-empty {ℓ} : {K V : Type ℓ} ⦃e : Eq K⦄ (k : K) → get {V = V} k empty ≡ none
unfolding get find
get-empty k = refl
