-- ===== src/Tests/Accounts.antt =====
-- The accounts of the store at two accounts.
use go_acme_server.Prelude.{◌≡◌, ◌≢◌, eq_iff, refl, arith, true, false, none, [], ◌∷◌, String}
use go_acme_server.Exec.{ok, err, revision_mismatch, conflict, ◌>>=◌}
use go_acme_server.Table.{get, put, remove, string_eq}
use go_acme_server.Resource.{Account, Authorization}
use go_acme_server.Memstore.{Store, new_store}
use go_acme_server.Memstore.Accounts.{create_account, update_account, account, account_by_key}
use go_acme_server.Memstore.AccountIndex.Inv.{AccountsInv}
use go_acme_server.Memstore.AccountIndex.Unique.{
  creates, updates, run_call, run_calls, history-AccountsInv, key_owner_unique, claim_owner_unique,
}
use go_acme_server.Memstore.Revisions.{update_account-lost_update}
use go_acme_server.Status.Authorization.{AuthorizationStatus}
use go_acme_server.Memstore.{key_eq}
use go_acme_server.Memstore.Certificates.{
  is_valid_account, is_empty, authorized_for, all_proved, any_proves,
}
use go_acme_server.Memstore.Revoking.{HoldsAll, authorized_for_sound}
use go_acme_server.Tests.Data.{example_com, an_order, alice, bob, an_authz, a_certificate}

abbrev with_alice : Store
with_alice = (create_account none alice new_store).1

-- A second account with alice's key is refused.
create_account_conflict :
    (create_account none (record bob { key_thumbprint = "k1" }) with_alice).0 ≡ err conflict
unfolding create_account ◌>>=◌ get put
create_account_conflict = refl

abbrev rolled : Account
rolled = record alice { key_thumbprint = "k9" }

update_account-lost_update_example :
    (update_account none alice (update_account none rolled with_alice).1
      ≡ (err revision_mismatch, (update_account none rolled with_alice).1))
    × (account none "a1" (update_account none rolled with_alice).1
        ≡ (ok (record rolled { revision = 2 }), (update_account none rolled with_alice).1))
unfolding create_account update_account ◌>>=◌ get put remove
update_account-lost_update_example =
    update_account-lost_update none with_alice (update_account none rolled with_alice).1 rolled
      (record rolled { revision = 2 }) alice refl refl refl refl

history-AccountsInv_example :
    AccountsInv
      (run_calls new_store (creates none alice ∷ creates none bob ∷ updates none rolled ∷ []))
history-AccountsInv_example =
    history-AccountsInv (creates none alice ∷ creates none bob ∷ updates none rolled ∷ [])

key_owner_unique_example :
    ◌≡◌ {A = String} "a2" "a2"
    × (account_by_key none "k2" (run_calls new_store (creates none alice ∷ creates none bob ∷ []))
        ≡ (ok bob, run_calls new_store (creates none alice ∷ creates none bob ∷ [])))
unfolding run_calls run_call create_account ◌>>=◌ get put
key_owner_unique_example =
    key_owner_unique (creates none alice ∷ creates none bob ∷ []) "a2" "a2" bob bob refl refl refl

claim_given : alice.external_account_claim ≢ ""
claim_given e = ground (arith, eq_iff "c1" "")

claim_owner_unique_example : ◌≡◌ {A = String} "a1" "a1"
unfolding run_calls run_call create_account update_account ◌>>=◌ get put remove
claim_owner_unique_example =
    claim_owner_unique (creates none alice ∷ creates none bob ∷ []) "a1" "a1" alice alice refl refl
      claim_given refl

abbrev one_authz : Store
one_authz = record new_store { authzs = put "z1" an_authz new_store.authzs }

abbrev one_certificate : Store
one_certificate = record new_store { certificates = put "e1" a_certificate new_store.certificates }

abbrev revoked_authz : Authorization
revoked_authz = record an_authz { status = AuthorizationStatus.revoked }

abbrev one_order : Store
one_order = record one_authz { orders = put "o1" an_order new_store.orders }

abbrev proving : Store
proving = record with_alice {
  authzs = put "z1" (record an_authz { status = AuthorizationStatus.valid }) new_store.authzs;
  authz_index =
      put (record { account_id = "a1"; identifier = example_com }) ("z1" ∷ [])
        new_store.authz_index;
}

authorized_for_sound_example :
    (is_valid_account (get "a1" proving.accounts) ≡ true)
    × (is_empty (example_com ∷ []) ≡ false)
    × HoldsAll proving "a1" 10 (example_com ∷ [])
    × (proving ≡ proving)
unfolding create_account authorized_for all_proved any_proves ◌>>=◌ get put
authorized_for_sound_example =
    authorized_for_sound none "a1" (example_com ∷ []) 10 proving proving refl
