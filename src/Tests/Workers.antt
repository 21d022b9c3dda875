-- ===== src/Tests/Workers.antt =====
-- The worker at one order.
use go_acme_server.Prelude.{
  Bool-cases, inl, inr, eq_iff, ◌==◌, ℕ, ◌≡◌, ◌≤◌, ◌*◌, arith, refl, true, false, none, some, [],
  ◌∷◌,
}
use go_acme_server.Exec.{ok, ◌>>=◌ as ◌>>=ₛ◌}
use go_acme_server.Table.{get, put, get-put, get-empty, empty, string_eq}
use go_acme_server.Status.Authorization.{AuthorizationStatus}
use go_acme_server.Resource.{
  Order, Authorization, Validation, IssuanceState, unset, effective_authz_status,
}
use go_acme_server.Memstore.{new_store}
use go_acme_server.Memstore.Authorizations.{authorization}
use go_acme_server.Nonce.{new_manager}
use go_acme_server.Server.{World, pure, call, ◌>>=◌}
use go_acme_server.Worker.Retry.{retry_delay}
use go_acme_server.Worker.Backoff.{factor, retry_delay-factor}
use go_acme_server.Worker.Orders.{derive_order_status}
use go_acme_server.Worker.Commit.{commit}
use go_acme_server.Worker.Committed.{IsKeyed, HaveMoved, commit-HaveMoved}
use go_acme_server.Worker.Derived.{IsQuiet, verdict, derive_order_status-verdict}
use go_acme_server.Worker.Evidence.{
  validation_evidence, collect, issuance_authorization, issued_not_after,
}
use go_acme_server.Worker.Deadline.{
  AreGathered, CoversAll, EndsBy, EndsByGrants, issuance_authorization-deadline,
  issued_not_after-EndsBy,
}
use go_acme_server.Tests.Data.{an_order, an_authz, a_challenge, a_task, a_server, example_com}

retry_delay-factor_example : retry_delay a_server (record a_task { attempts = 3 }) ≡ factor 2 * 2
retry_delay-factor_example =
    retry_delay-factor a_server (record a_task { attempts = 3 }) (omega arith)

a_server-IsQuiet : IsQuiet a_server
a_server-IsQuiet = record { no_error = λ n. refl; alone = λ n store. refl }

abbrev granted_authz : Authorization
granted_authz = record an_authz {
  status = AuthorizationStatus.valid;
  expires = 60;
  grant_expires = 40;
  pre_approved = true;
}

abbrev world : World
world = record {
  store = record new_store { authzs = put "z1" granted_authz empty };
  steps = 0;
  nonces = new_manager 60 2;
}

derive_order_status-verdict_example :
    (derive_order_status a_server an_order none world).0
    ≡ ok (verdict an_order 10 (granted_authz ∷ []))
unfolding get put
derive_order_status-verdict_example =
    derive_order_status-verdict a_server a_server-IsQuiet an_order none (granted_authz ∷ []) world
      refl

abbrev committing : World
committing = record {
  store = record new_store {
    orders = put "o1" an_order empty;
    authzs = put "z1" granted_authz empty;
    challenges = put "h1" a_challenge empty;
    tasks = put "t1" a_task empty;
  };
  steps = 0;
  nonces = new_manager 60 2;
}

committing-IsKeyed : IsKeyed committing.store.orders
committing-IsKeyed id o h =
    let g = get-put id "o1" an_order empty in
    elim (Bool-cases ("o1" == id)) [
      | inl e ↦ let same = (eq_iff "o1" id).0 e in ground arith
      | inr e ↦ absurd (ground (arith, get-empty {V = Order} id))
    ]

commit-HaveMoved_example :
    HaveMoved committing.store.orders
      (commit a_server a_task a_challenge granted_authz committing).1.store.orders
commit-HaveMoved_example =
    commit-HaveMoved a_server (λ n st. refl) a_task a_challenge granted_authz committing
      committing-IsKeyed

abbrev evidence : Validation
evidence = record {
  identifier = example_com;
  kind = unset;
  validated = 1;
  ca_certificate = false;
  grant_expires = 40;
  names = [];
  nf_type = "";
  pre_approved = true;
}

abbrev proposal : IssuanceState
proposal = record {
  operation_id = "t1";
  authorized_at = 10;
  deadline = 40;
  validations = evidence ∷ [];
}

issuance_authorization-deadline_example :
    (40 ≤ 100)
    × ◌≡◌ {A = ℕ} 1 1
    × CoversAll 10 40 (granted_authz ∷ [])
    × AreGathered a_server world an_order.authorization_ids
        (granted_authz ∷ [])
        (evidence ∷ [])
        (record world { steps = 1 })
unfolding issuance_authorization collect validation_evidence effective_authz_status call pure ◌>>=◌
    authorization ◌>>=ₛ◌ get put
issuance_authorization-deadline_example =
    issuance_authorization-deadline a_server "t1" an_order 10 (granted_authz ∷ []) proposal world
      (record world { steps = 1 }) refl

issued_not_after-EndsBy_example :
    EndsBy (issued_not_after (record an_order { not_after = 90; issuance = some proposal })) 90
    × EndsByGrants
        (issued_not_after (record an_order { not_after = 90; issuance = some proposal }))
        (evidence ∷ [])
issued_not_after-EndsBy_example =
    issued_not_after-EndsBy (record an_order { not_after = 90; issuance = some proposal }) proposal
      refl
