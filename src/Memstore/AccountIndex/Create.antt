-- ===== src/Memstore/AccountIndex/Create.antt =====
-- memstore/memstore.go: `CreateAccount` keeps the indexes.
use go_acme_server.Prelude.{
  ◌≡◌, ◌≢◌, sym, ◌∙◌, ap, String, ◌==◌, eq_iff, eq_refl, none, some, arith, Bool-cases, ◌⊎◌, inl,
  inr, if◌then◌else◌, not, ◌&&◌,
}
use go_acme_server.Exec.{Ctx, ok, ◌>>=◌}
use go_acme_server.Table.{get, put, get-put, string_eq}
use go_acme_server.Resource.{Account}
use go_acme_server.Memstore.{Store}
use go_acme_server.Memstore.Accounts.{create_account}
use go_acme_server.Memstore.AccountIndex.Inv.{AccountsInv}

-- What a successful creation has checked and written.
create_account-ok :
    (ctx : Ctx) (s t : Store) (a b : Account)
    → create_account ctx a s ≡ (ok b, t)
    → (get a.id s.accounts ≡ none)
      × (get a.key_thumbprint s.account_by_key ≡ none)
      × ((a.external_account_claim ≡ "") ⊎ (get a.external_account_claim s.account_by_claim ≡ none))
      × (b ≡ record a { revision = 1 })
      × (t.accounts ≡ put a.id b s.accounts)
      × (t.account_by_key ≡ put a.key_thumbprint a.id s.account_by_key)
      × (t.account_by_claim ≡ (
          if a.external_account_claim == ""
          then s.account_by_claim
          else put a.external_account_claim a.id s.account_by_claim))
unfolding create_account ◌>>=◌
create_account-ok ctx s t a b h = (
  ground arith,
  ground arith,
  ground (arith, eq_iff a.external_account_claim ""),
  ground arith,
  ground arith,
  ground arith,
  ground arith,
)

module _ (ctx : Ctx) (s t : Store) (a b : Account) (inv : AccountsInv s)
    (h : create_account ctx a s ≡ (ok b, t)) where
  fresh_id : get a.id s.accounts ≡ none
  fresh_id = (create_account-ok ctx s t a b h).0

  fresh_key : get a.key_thumbprint s.account_by_key ≡ none
  fresh_key = (create_account-ok ctx s t a b h).1

  created : b ≡ record a { revision = 1 }
  created = (create_account-ok ctx s t a b h).3

  accounts_after :
      (i : String) → get i t.accounts ≡ (if a.id == i then some b else get i s.accounts)
  accounts_after i = ap (get i) (create_account-ok ctx s t a b h).4 ∙ get-put i a.id b s.accounts

  keys_after :
      (k : String)
      → get k t.account_by_key
        ≡ (if a.key_thumbprint == k then some a.id else get k s.account_by_key)
  keys_after k =
      ap (get k) (create_account-ok ctx s t a b h).5
      ∙ get-put k a.key_thumbprint a.id s.account_by_key

  claims_after :
      (c : String)
      → get c t.account_by_claim ≡ (
          if not (a.external_account_claim == "") && a.external_account_claim == c
          then some a.id
          else get c s.account_by_claim)
  claims_after c =
      ap (get c) (create_account-ok ctx s t a b h).6
      ∙ elim (Bool-cases (a.external_account_claim == "")) [
        | inl p ↦ rw p
        | inr p ↦ rw p (get-put c a.external_account_claim a.id s.account_by_claim)
      ]

  create_keyed : (i : String) (x : Account) → get i t.accounts ≡ some x → x.id ≡ i
  create_keyed i x p = ground (arith, accounts_after i, created, eq_iff a.id i, inv.keyed i x)

  create_by_key :
      (i : String) (x : Account)
      → get i t.accounts ≡ some x
      → get x.key_thumbprint t.account_by_key ≡ some i
  create_by_key i x p = ground (
    arith,
    accounts_after i,
    created,
    eq_iff a.id i,
    keys_after x.key_thumbprint,
    eq_iff a.key_thumbprint x.key_thumbprint,
    fresh_key,
    inv.by_key i x,
  )

  kept : (i : String) (x : Account) → get i s.accounts ≡ some x → get i t.accounts ≡ some x
  kept i x p = ground (arith, accounts_after i, eq_iff a.id i, fresh_id)

  added : get a.id t.accounts ≡ some b
  added = ground (arith, accounts_after a.id, eq_refl a.id)

  create_key_owner :
      (k i : String)
      → get k t.account_by_key ≡ some i
      → (x : Account) × (get i t.accounts ≡ some x) × (x.key_thumbprint ≡ k)
  create_key_owner k i p = elim (Bool-cases (a.key_thumbprint == k)) [
    | inl same ↦
        (b, ground (arith, keys_after k, added), ground (arith, created, eq_iff a.key_thumbprint k))
    | inr other ↦
        let (x, q, r) = inv.key_owner k i (ground (arith, keys_after k)) in (x, kept i x q, r)
  ]

  claim_or_none :
      (a.external_account_claim ≡ "") ⊎ (get a.external_account_claim s.account_by_claim ≡ none)
  claim_or_none = (create_account-ok ctx s t a b h).2

  create_by_claim :
      (i : String) (x : Account)
      → get i t.accounts ≡ some x
      → x.external_account_claim ≢ ""
      → get x.external_account_claim t.account_by_claim ≡ some i
  create_by_claim i x p n = ground (
    arith,
    accounts_after i,
    created,
    eq_iff a.id i,
    claims_after x.external_account_claim,
    eq_iff a.external_account_claim x.external_account_claim,
    eq_iff a.external_account_claim "",
    claim_or_none,
    inv.by_claim i x,
  )

  create_claim_owner :
      (c i : String)
      → get c t.account_by_claim ≡ some i
      → (x : Account) × (get i t.accounts ≡ some x) × (x.external_account_claim ≡ c)
  create_claim_owner c i p =
      elim (Bool-cases (not (a.external_account_claim == "") && a.external_account_claim == c)) [
        | inl same ↦ (
          b,
          ground (arith, claims_after c, added),
          ground (arith, created, eq_iff a.external_account_claim c),
        )
        | inr other ↦
            let (x, q, r) = inv.claim_owner c i (sym (rw other at (claims_after c)) ∙ p) in
            (x, kept i x q, r)
      ]

  -- A successful `CreateAccount` keeps the accounts and their indexes in agreement.
  pub create_account-AccountsInv : AccountsInv t
  create_account-AccountsInv = record {
    keyed = create_keyed;
    by_key = create_by_key;
    key_owner = create_key_owner;
    by_claim = create_by_claim;
    claim_owner = create_claim_owner;
  }
