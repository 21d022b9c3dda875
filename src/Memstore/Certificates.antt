-- ===== src/Memstore/Certificates.antt =====
-- memstore/memstore.go: certificates, and the check behind a revocation by another account.
use go_acme_server.Prelude.{
  ℕ, Bool, true, false, not, ◌||◌, String, ◌==◌, Option, none, some, ◌=?◌, next_u64, List, [], ◌∷◌,
  if◌then◌else◌,
}
use go_acme_server.Exec.{
  Ctx, Exec, not_found, revision_mismatch, panicked, pure, or_raise, gets, modify, fail_if,
  check_ctx, ◌>>=◌, ◌>>◌,
}
use go_acme_server.Table.{get, put, string_eq}
use go_acme_server.Status.Account.{AccountStatus, is as account_is}
use go_acme_server.Problem.{Identifier}
use go_acme_server.Resource.{Account, Certificate}
use go_acme_server.Memstore.{Store, key_eq}
use go_acme_server.Memstore.Orders.{or_nil}
use go_acme_server.Memstore.Authorizations.{proves}

-- `Certificate`.
unfoldable pub certificate : Ctx → String → Exec Store Certificate
certificate ctx id = do
  check_ctx ctx
  found ← gets (λ s. get id s.certificates)
  or_raise not_found found

unfoldable pub certificate_by_renewal_id : Ctx → String → Exec Store Certificate
certificate_by_renewal_id ctx renewal_id = do
  check_ctx ctx
  indexed ← gets (λ s. get renewal_id s.cert_by_renewal)
  id ← or_raise not_found indexed
  fail_if (renewal_id == "") not_found
  found ← gets (λ s. get id s.certificates)
  or_raise panicked found

unfoldable pub update_certificate : Ctx → Certificate → Exec Store Certificate
update_certificate ctx cert = do
  check_ctx ctx
  found ← gets (λ s. get cert.id s.certificates)
  stored ← or_raise not_found found
  fail_if (not (stored.revision =? cert.revision)) revision_mismatch
  let updated = record cert { revision = next_u64 cert.revision }
  modify (λ s. record s { certificates = put cert.id updated s.certificates })
  pure updated

-- One of the authorizations proves control at `now`; `none` where a nil authorization is read.
unfoldable pub any_proves : Store → ℕ → List String → Option Bool
any_proves s now [] = some false
any_proves s now (id ∷ ids) =
    let rest = any_proves s now ids in
    elim (get id s.authzs) [ none ↦ none | some a ↦ if proves a now then some true else rest ]

unfoldable pub all_proved : Store → String → ℕ → List Identifier → Option Bool
unfolding any_proves
all_proved s account_id now [] = some true
all_proved s account_id now (identifier ∷ rest) =
    let others = all_proved s account_id now rest in
    elim (any_proves s now
      (or_nil (get (record { account_id = account_id; identifier = identifier }) s.authz_index))) [
        | none ↦ none
        | some true ↦ others
        | some false ↦ some false
      ]

abbrev pub is_valid_account : Option Account → Bool
is_valid_account none = false
is_valid_account (some a) = account_is a.status AccountStatus.valid

abbrev pub is_empty {ℓ} : {A : Type ℓ} → List A → Bool
is_empty [] = true
is_empty (x ∷ xs) = false

-- Every identifier is checked against one snapshot.
unfoldable pub authorized_for : Ctx → String → List Identifier → ℕ → Exec Store Bool
unfolding all_proved
authorized_for ctx account_id identifiers now = do
  check_ctx ctx
  found ← gets (λ s. get account_id s.accounts)
  proved ← gets (λ s. all_proved s account_id now identifiers)
  if not (is_valid_account found) || is_empty identifiers
      then pure false
      else or_raise panicked proved
