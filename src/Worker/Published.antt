-- ===== src/Worker/Published.antt =====
-- issuance.go: when a certificate is published.
use go_acme_server.Prelude.{◌≡◌, ◌⊎◌, next_u64, false, none, some, Option}
use go_acme_server.Exec.{err, StoreError, conflict, ◌>>=◌ as ◌>>=ₛ◌}
use go_acme_server.Table.{get, string_eq}
use go_acme_server.Status.Order.{OrderStatus}
use go_acme_server.Problem.{Problem, new_problem, server_internal}
use go_acme_server.Memstore.{Store}
use go_acme_server.Memstore.Work.{complete_issuance}
use go_acme_server.Resource.{Time, Order, Certificate, IssueResult, Task}
use go_acme_server.Server.{Server, World, HostError, call, ◌>>=◌}
use go_acme_server.Certs.{CertificateRequest, Leaf, X509}
use go_acme_server.Certs.Issued.{IsPublishable}
use go_acme_server.Worker.Publish.{Ca, is_conflict, issued_certificate, record_issued_result}

abbrev pub stored_order : Order → Order
stored_order o = record o { revision = next_u64 o.revision }

abbrev pub stored_certificate : Certificate → Certificate
stored_certificate cert = record cert { revision = 1 }

-- The store has the order, and the task is gone.
abbrev pub IsCommitted : Task → Order → Store → Type 0
IsCommitted task o st = (get o.id st.orders ≡ some (stored_order o)) × (get task.id st.tasks ≡ none)

-- An order that is committed alone in `w`: the store has it at the end, unless it refused the commit.
abbrev pub IsFailed : Server → Task → Order → World → Store → Type 0
IsFailed s task o w end =
    ((e : StoreError) × ((call s (λ c. complete_issuance c task o none) w).0 ≡ err e))
    ⊎ IsCommitted task o end

-- The order as invalid, with what the CA returned retained.
abbrev pub refused_order : Order → IssueResult → Order
refused_order o result = record o {
  status = OrderStatus.invalid;
  error = some (new_problem server_internal "issuer returned an unacceptable certificate");
  unpublished_result = some result;
}

abbrev pub duplicate_order : Order → IssueResult → Order
duplicate_order o result = record o {
  status = OrderStatus.invalid;
  error = some (new_problem server_internal "issuer returned a duplicate certificate");
  unpublished_result = some result;
  certificate_id = "";
}

-- The order as valid, with its certificate.
abbrev pub valid_order : Order → Certificate → Order
valid_order o cert = record o { status = OrderStatus.valid; certificate_id = cert.id; error = none }

-- The order fails, and what the CA returned is retained with it.
abbrev pub IsRefused :
    Server
    → X509
    → Ca
    → Task
    → Order
    → CertificateRequest
    → IssueResult
    → Time
    → Option HostError
    → World
    → Type 0
IsRefused s x ca task o csr result at e w =
    IsFailed s task (refused_order o result) w
      (record_issued_result s x ca task o csr result at e w).1.store

-- The order and its certificate are committed; or the certificate exists already and the order
-- fails; or the store refused the commit.
abbrev pub IsStored : Server → Task → Order → IssueResult → Certificate → World → Store → Type 0
IsStored s task o result cert w end =
    let m = call s (λ c. complete_issuance c task (valid_order o cert) (some cert)) w in
    (IsCommitted task (valid_order o cert) end
      × (get cert.id end.certificates ≡ some (stored_certificate cert)))
    ⊎ (((m.0 ≡ err conflict) × IsFailed s task (duplicate_order o result) m.1 end)
        ⊎ ((e : StoreError) × (m.0 ≡ err e) × (is_conflict e ≡ false)))

-- The certificate is of the order, with the chain that the CA returned and the validity of its leaf.
abbrev pub IsOf : X509 → Order → IssueResult → Leaf → Certificate → Type 0
IsOf x o result leaf cert =
    (cert.chain ≡ result.chain)
    × (cert.order_id ≡ o.id)
    × (cert.account_id ≡ o.account_id)
    × (cert.not_before ≡ leaf.not_before)
    × (cert.not_after ≡ leaf.not_after)
    × (cert.revoked ≡ false)
    × (cert.renewal_id ≡ x.renewal_id leaf)

-- The certificate is stored with the order, its chain fit for it and the answer of the CA clear.
abbrev pub IsPublished :
    Server
    → X509
    → Ca
    → Task
    → Order
    → CertificateRequest
    → IssueResult
    → Time
    → Option HostError
    → World
    → Type 0
IsPublished s x ca task o csr result at e w =
    (leaf : Leaf) × IsPublishable x s.platform result.chain csr o at leaf
    × ((e ≡ none) × (result.pending ≡ false) × (result.rejected ≡ none))
    × IsOf x o result leaf (issued_certificate s x ca o result leaf at)
    × IsStored s task o result (issued_certificate s x ca o result leaf at) w
        (record_issued_result s x ca task o csr result at e w).1.store
