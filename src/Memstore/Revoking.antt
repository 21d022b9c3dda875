-- ===== src/Memstore/Revoking.antt =====
-- memstore/memstore.go: what `AuthorizedFor` has seen when it allows a revocation.
use go_acme_server.Prelude.{
  ℕ, ◌≡◌, ◌<◌, refl, inl, inr, true, false, String, some, List, [], ◌∷◌, arith, Bool-cases,
  Option-cases,
}
use go_acme_server.Exec.{Ctx, ok, ◌>>=◌}
use go_acme_server.Table.{get, string_eq}
use go_acme_server.Table.Entries.{In}
use go_acme_server.Status.Authorization.{AuthorizationStatus}
use go_acme_server.Problem.{Identifier}
use go_acme_server.Resource.{Authorization}
use go_acme_server.Memstore.{Store, key_eq}
use go_acme_server.Memstore.Orders.{or_nil}
use go_acme_server.Memstore.Authorizations.{proves}
use go_acme_server.Memstore.Certificates.{
  any_proves, all_proved, authorized_for, is_valid_account, is_empty,
}

-- The account holds an authorization for the identifier that is valid, unexpired at `now`, and was
-- not granted without a challenge.
abbrev pub Holds : Store → String → ℕ → Identifier → Type 0
Holds s account_id now identifier =
    (id : String) × (a : Authorization) × In id
      (or_nil (get (record { account_id = account_id; identifier = identifier }) s.authz_index))
    × (get id s.authzs ≡ some a)
    × (a.status ≡ AuthorizationStatus.valid)
    × (a.pre_approved ≡ false)
    × (now < a.expires)

abbrev pub HoldsAll : Store → String → ℕ → List Identifier → Type 0
HoldsAll s account_id now [] = Unit
HoldsAll s account_id now (i ∷ is) = Holds s account_id now i × HoldsAll s account_id now is

any_proves_sound :
    (s : Store) (now : ℕ) (ids : List String)
    → any_proves s now ids ≡ some true
    → (id : String) × (a : Authorization) × In id ids
      × (get id s.authzs ≡ some a)
      × (a.status ≡ AuthorizationStatus.valid)
      × (a.pre_approved ≡ false)
      × (now < a.expires)
unfolding any_proves
any_proves_sound s now [] h = absurd (ground arith)
any_proves_sound s now (id ∷ ids) h = elim (Option-cases (get id s.authzs)) [
  | inl e ↦ absurd (ground arith)
  | inr (a, e) ↦ elim (Bool-cases (proves a now)) [
    | inl p ↦ (id, a, inl refl, e, ground arith, ground arith, ground arith)
    | inr p ↦
        let (id', a', i, e1, e2, e3, e4) = any_proves_sound s now ids (ground arith) in
        (id', a', inr i, e1, e2, e3, e4)
  ]
]

-- The authorizations that the index lists under an account and an identifier.
abbrev pub listed : Store → String → Identifier → List String
listed s account_id identifier =
    or_nil (get (record { account_id = account_id; identifier = identifier }) s.authz_index)

all_proved-cases :
    (s : Store) (account_id : String) (now : ℕ) (i : Identifier) (is : List Identifier)
    → all_proved s account_id now (i ∷ is) ≡ some true
    → (any_proves s now (listed s account_id i) ≡ some true)
      × (all_proved s account_id now is ≡ some true)
unfolding all_proved
all_proved-cases s account_id now i is h =
    elim (Option-cases (any_proves s now (listed s account_id i))) [
      | inl e ↦ absurd (ground arith)
      | inr (true, e) ↦ (e, ground arith)
      | inr (false, e) ↦ absurd (ground arith)
    ]

all_proved_sound :
    (s : Store) (account_id : String) (now : ℕ) (is : List Identifier)
    → all_proved s account_id now is ≡ some true
    → HoldsAll s account_id now is
all_proved_sound s account_id now [] h = tt
all_proved_sound s account_id now (i ∷ is) h =
    let (e, rest) = all_proved-cases s account_id now i is h in
    (any_proves_sound s now (listed s account_id i) e, all_proved_sound s account_id now is rest)

-- When `AuthorizedFor` allows a revocation, the account is stored and valid, at least one
-- identifier was asked for, the account holds a suitable authorization for each of them, and the
-- store is as it was.
pub authorized_for_sound :
    (ctx : Ctx) (account_id : String) (is : List Identifier) (now : ℕ) (s t : Store)
    (allowed : authorized_for ctx account_id is now s ≡ (ok true, t))
    → (is_valid_account (get account_id s.accounts) ≡ true)
      × (is_empty is ≡ false)
      × HoldsAll s account_id now is
      × (t ≡ s)
unfolding authorized_for ◌>>=◌
authorized_for_sound ctx account_id is now s t allowed =
    (ground arith, ground arith, all_proved_sound s account_id now is (ground arith), ground arith)
