-- ===== src/Memstore/AccountIndex/Inv.antt =====
-- memstore/memstore.go: what the indexes of the accounts say.
use go_acme_server.Prelude.{◌≡◌, ◌≢◌, String, some}
use go_acme_server.Table.{get, get-empty, string_eq}
use go_acme_server.Resource.{Account}
use go_acme_server.Memstore.{Store, new_store}

-- The accounts and their two indexes name one another.
pub record AccountsInv (s : Store) : Type 0 where
  pub keyed : (i : String) (a : Account) → get i s.accounts ≡ some a → a.id ≡ i
  pub by_key :
      (i : String) (a : Account)
      → get i s.accounts ≡ some a
      → get a.key_thumbprint s.account_by_key ≡ some i
  pub key_owner :
      (k i : String)
      → get k s.account_by_key ≡ some i
      → (a : Account) × (get i s.accounts ≡ some a) × (a.key_thumbprint ≡ k)
  pub by_claim :
      (i : String) (a : Account)
      → get i s.accounts ≡ some a
      → a.external_account_claim ≢ ""
      → get a.external_account_claim s.account_by_claim ≡ some i
  pub claim_owner :
      (c i : String)
      → get c s.account_by_claim ≡ some i
      → (a : Account) × (get i s.accounts ≡ some a) × (a.external_account_claim ≡ c)

pub new_store-AccountsInv : AccountsInv new_store
new_store-AccountsInv = record {
  keyed = λ i a h. cc (h, get-empty {V = Account} i);
  by_key = λ i a h. cc (h, get-empty {V = Account} i);
  key_owner = λ k i h. cc (h, get-empty {V = String} k);
  by_claim = λ i a h n. cc (h, get-empty {V = Account} i);
  claim_owner = λ c i h. cc (h, get-empty {V = String} c);
}
