-- ===== src/Memstore/AccountIndex/Unique.antt =====
-- memstore/memstore.go: over any history of account calls, a key and a claim have one owner.
use go_acme_server.Prelude.{◌≡◌, ◌≢◌, refl, sym, ◌∙◌, String, none, some, some_inj, List, [], ◌∷◌}
use go_acme_server.Exec.{Ctx, Exec, Result, ok, err, ◌>>=◌}
use go_acme_server.Exec.Atomic.{IsAtomic}
use go_acme_server.Table.{get, string_eq}
use go_acme_server.Resource.{Account}
use go_acme_server.Memstore.{Store, new_store}
use go_acme_server.Memstore.Accounts.{create_account, update_account, account_by_key}
use go_acme_server.Memstore.Atomicity.{create_account-IsAtomic, update_account-IsAtomic}
use go_acme_server.Memstore.AccountIndex.Inv.{AccountsInv, new_store-AccountsInv}
use go_acme_server.Memstore.AccountIndex.Create.{create_account-AccountsInv}
use go_acme_server.Memstore.AccountIndex.Update.{update_account-AccountsInv}

-- A call that writes accounts.
pub data AccountCall : Type 0 where
  creates updates : Ctx → Account → AccountCall

unfoldable pub run_call : Store → AccountCall → Store
run_call s (creates ctx a) = (create_account ctx a s).1
run_call s (updates ctx a) = (update_account ctx a s).1

-- The store after a history, failed calls included.
unfoldable pub run_calls : Store → List AccountCall → Store
run_calls s [] = s
run_calls s (c ∷ cs) = run_calls (run_call s c) cs

settle :
    (m : Exec Store Account) (s : Store)
    → IsAtomic m
    → ((b : Account) (t : Store) → m s ≡ (ok b, t) → AccountsInv t)
    → AccountsInv s
    → AccountsInv (m s).1
settle m s atomic keep inv = go (m s).0 refl
  where
    go : (r : Result Account) → (m s).0 ≡ r → AccountsInv (m s).1
    go (ok b) p = keep b (m s).1 (λ i. (p i, (m s).1))
    go (err e) p = rw (atomic.unchanged s e p) inv

run_call-AccountsInv : (s : Store) (c : AccountCall) → AccountsInv s → AccountsInv (run_call s c)
unfolding run_call
run_call-AccountsInv s (creates ctx a) inv =
    settle (create_account ctx a) s (create_account-IsAtomic ctx a)
      (λ b t h. create_account-AccountsInv ctx s t a b inv h) inv
run_call-AccountsInv s (updates ctx a) inv =
    settle (update_account ctx a) s (update_account-IsAtomic ctx a)
      (λ b t h. update_account-AccountsInv ctx s t a b inv h) inv

run_calls-AccountsInv :
    (s : Store) (cs : List AccountCall) → AccountsInv s → AccountsInv (run_calls s cs)
unfolding run_calls
run_calls-AccountsInv s [] inv = inv
run_calls-AccountsInv s (c ∷ cs) inv =
    run_calls-AccountsInv (run_call s c) cs (run_call-AccountsInv s c inv)

-- After any history of account creations and updates on a new store, failed ones included, the
-- indexes by key and by claim agree with the accounts.
pub history-AccountsInv : (cs : List AccountCall) → AccountsInv (run_calls new_store cs)
history-AccountsInv cs = run_calls-AccountsInv new_store cs new_store-AccountsInv

-- After any history of account creations and updates on a new store, failed ones included, two
-- stored accounts with one key thumbprint are one account, and the lookup by thumbprint returns it.
pub key_owner_unique :
    (cs : List AccountCall) (i j : String) (a b : Account)
    (at_i : get i (run_calls new_store cs).accounts ≡ some a)
    (at_j : get j (run_calls new_store cs).accounts ≡ some b)
    (same : a.key_thumbprint ≡ b.key_thumbprint)
    → (i ≡ j)
      × (account_by_key none b.key_thumbprint (run_calls new_store cs)
          ≡ (ok a, run_calls new_store cs))
unfolding account_by_key ◌>>=◌
key_owner_unique cs i j a b at_i at_j same =
    let inv = history-AccountsInv cs in
    (
      some_inj (sym (inv.by_key i a at_i) ∙ rw same (inv.by_key j b at_j)),
      rw (sym same) (rw (inv.by_key i a at_i) (rw at_i)),
    )

-- After any history of account creations and updates on a new store, failed ones included, two
-- stored accounts with one claim of an external account that is not empty are one account.
pub claim_owner_unique :
    (cs : List AccountCall) (i j : String) (a b : Account)
    (at_i : get i (run_calls new_store cs).accounts ≡ some a)
    (at_j : get j (run_calls new_store cs).accounts ≡ some b)
    (given : a.external_account_claim ≢ "")
    (same : a.external_account_claim ≡ b.external_account_claim)
    → i ≡ j
claim_owner_unique cs i j a b at_i at_j given same =
    let inv = history-AccountsInv cs in
    some_inj
      (sym (inv.by_claim i a at_i given) ∙ rw same (inv.by_claim j b at_j (rw same at given)))
