-- ===== src/Memstore/AccountIndex/Update.antt =====
-- memstore/memstore.go: `UpdateAccount` keeps the indexes.
use go_acme_server.Prelude.{
  ◌≡◌, ◌≢◌, sym, ◌∙◌, ap, String, ◌==◌, eq_iff, eq_refl, Option, none, some, arith, Bool-cases,
  Option-cases, some_inj, next_u64, ◌⊎◌, inl, inr, if◌then◌else◌, not, ◌&&◌,
}
use go_acme_server.Exec.{Ctx, ok, ◌>>=◌}
use go_acme_server.Table.{get, put, remove, get-put, get-remove, string_eq}
use go_acme_server.Resource.{Account}
use go_acme_server.Memstore.{Store}
use go_acme_server.Memstore.Accounts.{update_account}
use go_acme_server.Memstore.AccountIndex.Inv.{AccountsInv}

-- The stored account that an update replaces.
update_account-old :
    (ctx : Ctx) (s t : Store) (a b : Account)
    → update_account ctx a s ≡ (ok b, t)
    → (old : Account) × (get a.id s.accounts ≡ some old)
unfolding update_account ◌>>=◌
update_account-old ctx s t a b h = elim (Option-cases (get a.id s.accounts)) [
  | inl e ↦ absurd (ground arith)
  | inr found ↦ found
]

-- The key or claim that the update brings is unchanged, free, or the account's own.
abbrev Free : Option String → String → Type 0
Free none id = Unit
Free (some owner) id = owner ≡ id

module _ (ctx : Ctx) (s t : Store) (a b old : Account) (inv : AccountsInv s)
    (h : update_account ctx a s ≡ (ok b, t)) (found : get a.id s.accounts ≡ some old) where
  updated : b ≡ record a { revision = next_u64 a.revision }
  unfolding update_account ◌>>=◌
  updated = ground arith

  accounts_written : t.accounts ≡ put a.id b s.accounts
  unfolding update_account ◌>>=◌
  accounts_written = ground arith

  keys_written :
      t.account_by_key ≡ put a.key_thumbprint a.id (remove old.key_thumbprint s.account_by_key)
  unfolding update_account ◌>>=◌
  keys_written = ground arith

  claims_written : t.account_by_claim ≡ (
      if a.external_account_claim == ""
      then remove old.external_account_claim s.account_by_claim
      else put a.external_account_claim a.id (remove old.external_account_claim s.account_by_claim))
  unfolding update_account ◌>>=◌
  claims_written = ground arith

  key_free :
      (a.key_thumbprint ≡ old.key_thumbprint)
      ⊎ ((i : String) → get a.key_thumbprint s.account_by_key ≡ some i → i ≡ a.id)
  unfolding update_account ◌>>=◌
  key_free = elim (Bool-cases (a.key_thumbprint == old.key_thumbprint)) [
    | inl same ↦ inl ((eq_iff _ _).0 same)
    | inr other ↦ inr (λ i e. ground (arith, eq_iff i a.id))
  ]

  claim_free :
      (a.external_account_claim ≡ old.external_account_claim)
      ⊎ (a.external_account_claim ≡ "")
      ⊎ ((i : String) → get a.external_account_claim s.account_by_claim ≡ some i → i ≡ a.id)
  unfolding update_account ◌>>=◌
  claim_free = elim (Bool-cases (a.external_account_claim == old.external_account_claim)) [
    | inl same ↦ inl ((eq_iff _ _).0 same)
    | inr other ↦ elim (Bool-cases (a.external_account_claim == "")) [
      | inl unset ↦ inr (inl ((eq_iff _ _).0 unset))
      | inr claimed ↦ inr (inr (λ i e. ground (arith, eq_iff i a.id)))
    ]
  ]

  accounts_after :
      (i : String) → get i t.accounts ≡ (if a.id == i then some b else get i s.accounts)
  accounts_after i = ap (get i) accounts_written ∙ get-put i a.id b s.accounts

  keys_after :
      (k : String)
      → get k t.account_by_key ≡ (
          if a.key_thumbprint == k
          then some a.id
          else if old.key_thumbprint == k
          then none
          else get k s.account_by_key)
  keys_after k = ap (get k) keys_written ∙ simp (get-put, get-remove)

  claims_after :
      (c : String)
      → get c t.account_by_claim ≡ (
          if not (a.external_account_claim == "") && a.external_account_claim == c
          then some a.id
          else if old.external_account_claim == c
          then none
          else get c s.account_by_claim)
  claims_after c = ap (get c) claims_written ∙ elim (Bool-cases (a.external_account_claim == "")) [
    | inl p ↦ rw p (get-remove c old.external_account_claim s.account_by_claim)
    | inr p ↦ rw p (simp (get-put, get-remove))
  ]

  old_key : get old.key_thumbprint s.account_by_key ≡ some a.id
  old_key = inv.by_key a.id old found

  -- Another account does not hold the key that the update brings.
  key_not_taken : (i : String) → get a.key_thumbprint s.account_by_key ≡ some i → i ≡ a.id
  key_not_taken i p = elim key_free [
    | inl same ↦ some_inj (sym p ∙ rw same old_key)
    | inr free ↦ free i p
  ]

  claim_not_taken :
      (i : String)
      → a.external_account_claim ≢ ""
      → get a.external_account_claim s.account_by_claim ≡ some i
      → i ≡ a.id
  claim_not_taken i n p = elim claim_free [
    | inl same ↦ some_inj (sym p ∙ rw same (inv.by_claim a.id old found (rw same at n)))
    | inr (inl unset) ↦ absurd (n unset)
    | inr (inr free) ↦ free i p
  ]

  update_keyed : (i : String) (x : Account) → get i t.accounts ≡ some x → x.id ≡ i
  update_keyed i x p = ground (arith, accounts_after i, updated, eq_iff a.id i, inv.keyed i x)

  update_by_key :
      (i : String) (x : Account)
      → get i t.accounts ≡ some x
      → get x.key_thumbprint t.account_by_key ≡ some i
  update_by_key i x p = ground (
    arith,
    accounts_after i,
    updated,
    eq_iff a.id i,
    keys_after x.key_thumbprint,
    eq_iff a.key_thumbprint x.key_thumbprint,
    eq_iff old.key_thumbprint x.key_thumbprint,
    key_not_taken i,
    old_key,
    inv.by_key i x,
  )

  update_by_claim :
      (i : String) (x : Account)
      → get i t.accounts ≡ some x
      → x.external_account_claim ≢ ""
      → get x.external_account_claim t.account_by_claim ≡ some i
  update_by_claim i x p n = ground (
    arith,
    accounts_after i,
    updated,
    eq_iff a.id i,
    claims_after x.external_account_claim,
    eq_iff a.external_account_claim x.external_account_claim,
    eq_iff a.external_account_claim "",
    eq_iff old.external_account_claim x.external_account_claim,
    claim_not_taken i,
    inv.by_claim a.id old found,
    inv.by_claim i x,
  )

  added : get a.id t.accounts ≡ some b
  added = ground (arith, accounts_after a.id, eq_refl a.id)

  kept :
      (i : String) (x : Account) → a.id ≢ i → get i s.accounts ≡ some x → get i t.accounts ≡ some x
  kept i x n p = ground (arith, accounts_after i, eq_iff a.id i)

  update_key_owner :
      (k i : String)
      → get k t.account_by_key ≡ some i
      → (x : Account) × (get i t.accounts ≡ some x) × (x.key_thumbprint ≡ k)
  update_key_owner k i p = elim (Bool-cases (a.key_thumbprint == k)) [
    | inl same ↦
        (b, ground (arith, keys_after k, added), ground (arith, updated, eq_iff a.key_thumbprint k))
    | inr other ↦
        let (x, q, r) = inv.key_owner k i (ground (arith, keys_after k)) in
        (x, kept i x (λ e. ground (arith, keys_after k, eq_iff old.key_thumbprint k)) q, r)
  ]

  update_claim_owner :
      (c i : String)
      → get c t.account_by_claim ≡ some i
      → (x : Account) × (get i t.accounts ≡ some x) × (x.external_account_claim ≡ c)
  update_claim_owner c i p =
      elim (Bool-cases (not (a.external_account_claim == "") && a.external_account_claim == c)) [
        | inl same ↦ (
          b,
          ground (arith, claims_after c, added),
          ground (arith, updated, eq_iff a.external_account_claim c),
        )
        | inr other ↦
            let here = sym (rw other at (claims_after c)) ∙ p in
            let (x, q, r) = inv.claim_owner c i (ground (arith, here)) in
            (x, kept i x (λ e. ground (arith, here, eq_iff old.external_account_claim c)) q, r)
      ]

  update-AccountsInv : AccountsInv t
  update-AccountsInv = record {
    keyed = update_keyed;
    by_key = update_by_key;
    key_owner = update_key_owner;
    by_claim = update_by_claim;
    claim_owner = update_claim_owner;
  }

-- A successful `UpdateAccount`, a key rollover included, keeps the accounts and their indexes in
-- agreement.
pub update_account-AccountsInv :
    (ctx : Ctx) (s t : Store) (a b : Account)
    → AccountsInv s
    → update_account ctx a s ≡ (ok b, t)
    → AccountsInv t
update_account-AccountsInv ctx s t a b inv h =
    let (old, found) = update_account-old ctx s t a b h in
    update-AccountsInv ctx s t a b old inv h found
