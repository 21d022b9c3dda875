-- ===== src/Memstore/Accounts.antt =====
-- memstore/memstore.go: the accounts. A method returns what its argument points at afterwards.
use go_acme_server.Prelude.{
  Bool, false, if◌then◌else◌, not, ◌&&◌, ◌||◌, String, ◌==◌, Option, none, some, is_some, ◌=?◌,
  next_u64,
}
use go_acme_server.Exec.{
  Ctx, Exec, not_found, conflict, revision_mismatch, refused, panicked, pure, or_raise, gets,
  modify, fail_if, check_ctx, ◌>>=◌, ◌>>◌,
}
use go_acme_server.Table.{get, put, remove, string_eq}
use go_acme_server.Resource.{Account}
use go_acme_server.Memstore.{Store}

-- `if claim != "" { s.accountByClaim[claim] = id }`
abbrev pub put_claim : String → String → Store → Store
put_claim claim id s =
    if claim == "" then s else record s { account_by_claim = put claim id s.account_by_claim }

unfoldable pub create_account : Ctx → Account → Exec Store Account
create_account ctx account = do
  check_ctx ctx
  fail_if (account.id == "" || account.key_thumbprint == "") refused
  owner ← gets (λ s. get account.id s.accounts)
  fail_if (is_some owner) conflict
  by_key ← gets (λ s. get account.key_thumbprint s.account_by_key)
  fail_if (is_some by_key) conflict
  by_claim ← gets (λ s. get account.external_account_claim s.account_by_claim)
  fail_if (is_some by_claim && not (account.external_account_claim == "")) conflict
  let created = record account { revision = 1 }
  modify (λ s. record s { accounts = put account.id created s.accounts })
  modify (λ s. record s { account_by_key = put account.key_thumbprint account.id s.account_by_key })
  modify (put_claim account.external_account_claim account.id)
  pure created

-- `Account`.
unfoldable pub account : Ctx → String → Exec Store Account
account ctx id = do check_ctx ctx; found ← gets (λ s. get id s.accounts); or_raise not_found found

-- An index entry that names no account makes `cloneAccount` read a nil pointer.
unfoldable pub account_by_key : Ctx → String → Exec Store Account
account_by_key ctx thumbprint = do
  check_ctx ctx
  owner ← gets (λ s. get thumbprint s.account_by_key)
  id ← or_raise not_found owner
  found ← gets (λ s. get id s.accounts)
  or_raise panicked found

-- `owner, exists := m[k]; exists && owner != id`
abbrev pub owned_by_other : Option String → String → Bool
owned_by_other none id = false
owned_by_other (some owner) id = not (owner == id)

unfoldable pub update_account : Ctx → Account → Exec Store Account
update_account ctx account = do
  check_ctx ctx
  fail_if (account.key_thumbprint == "") refused
  found ← gets (λ s. get account.id s.accounts)
  stored ← or_raise not_found found
  fail_if (not (stored.revision =? account.revision)) revision_mismatch
  by_key ← gets (λ s. get account.key_thumbprint s.account_by_key)
  fail_if
      (not (account.key_thumbprint == stored.key_thumbprint) && owned_by_other by_key account.id)
      conflict
  by_claim ← gets (λ s. get account.external_account_claim s.account_by_claim)
  fail_if
      (not (account.external_account_claim == stored.external_account_claim)
        && not (account.external_account_claim == "")
        && owned_by_other by_claim account.id)
      conflict
  modify (λ s. record s { account_by_key = remove stored.key_thumbprint s.account_by_key })
  modify (λ s. record s { account_by_key = put account.key_thumbprint account.id s.account_by_key })
  modify
      (λ s. record s { account_by_claim = remove stored.external_account_claim s.account_by_claim })
  modify (put_claim account.external_account_claim account.id)
  let updated = record account { revision = next_u64 account.revision }
  modify (λ s. record s { accounts = put account.id updated s.accounts })
  pure updated
