-- ===== src/Worker/Publish.antt =====
-- issuance.go: the call of the CA and what its answer makes of an order; worker.go: `process`.
use go_acme_server.Prelude.{
  ℕ, ◌+◌, max, Bool, true, false, not, ◌&&◌, String, Option, none, some, is_some, List, [], ◌∷◌,
  ltb, if◌then◌else◌,
}
use go_acme_server.Exec.{StoreError, conflict}
use go_acme_server.Status.Order.{OrderStatus}
use go_acme_server.Problem.{Identifier, Problem, new_problem, unauthorized, server_internal}
use go_acme_server.Resource.{
  Time, Bytes, Order, Certificate, Validation, IssuanceState, IssueResult, Task, validate, issue,
  other, after,
}
use go_acme_server.Memstore.Work.{complete_issuance}
use go_acme_server.Server.{
  Server, Run, HostError, final, failure, pure, now, call, ask_host, on, ◌>>=◌, ◌>>◌,
}
use go_acme_server.Certs.{CertificateRequest, Leaf, X509}
use go_acme_server.Certs.Chain.{
  good_chain, bad_chain, bad_constraints, bad_element, unsigned_element, check_chain,
}
use go_acme_server.Wire.{account_url}
use go_acme_server.Worker.Retry.{finish, reschedule, store_reschedule}
use go_acme_server.Worker.Evidence.{issued_not_after}
use go_acme_server.Worker.Issuance.{
  Snapshot, handle_commit, fail_order, issuance_order, dispatch_snapshot, store_dispatch,
}
use go_acme_server.Worker.Validation.{run_validation}

-- `IssueRequest`, without the parsed certificate request.
pub record IssueRequest : Type 0 where
  pub operation_id : String
  pub account_id : String
  pub account_url : String
  pub order_id : String
  pub csr_der : Bytes
  pub identifiers : List Identifier
  pub not_before : Time
  pub not_after : Time
  pub validations : List Validation
  pub deadline : Time
  pub recovery_only : Bool
  pub profile : String

-- Issuer, and IssuancePolicy where the host has one.
pub record Ca : Type 0 where
  pub issue : ℕ → IssueRequest → IssueResult × Option HostError
  pub policy : Option (ℕ → IssueRequest → Option HostError)

-- An order with its dispatch decision.
pub record Dispatched : Type 0 where
  pub order : Order
  pub csr : CertificateRequest
  pub request : IssueRequest

abbrev pub is_conflict : StoreError → Bool
is_conflict conflict = true
is_conflict _ = false

abbrev pub has_chain : IssueResult → Bool
has_chain result = elim result.chain [ [] ↦ false | der ∷ ders ↦ true ]

module _ (s : Server) (x : X509) (ca : Ca) where
  abbrev pub request_of : Order → IssuanceState → Time → IssueRequest
  request_of o state at = record {
    operation_id = state.operation_id;
    account_id = o.account_id;
    account_url = account_url s o.account_id;
    order_id = o.id;
    csr_der = o.csr;
    identifiers = o.identifiers;
    not_before = o.not_before;
    not_after = issued_not_after o;
    validations = state.validations;
    deadline = state.deadline;
    recovery_only = not (after state.deadline at);
    profile = o.profile;
  }

  -- `issueRequest`, none where the accepted CSR does not parse.
  unfoldable pub issue_request : Order → IssuanceState → Run (Option Dispatched)
  issue_request o state = elim (x.parse_request o.csr) [
    | none ↦ pure none
    | some csr ↦ do
      at ← now s
      pure (some (record { order = o; csr = csr; request = request_of o state at }))
  ]

  -- What the host's policy makes of a request.
  unfoldable pub ask_policy : Option Dispatched → Run (Option HostError)
  ask_policy none = pure (some failure)
  ask_policy (some d) = elim ca.policy [
    | none ↦ pure none
    | some authorize ↦ ask_host s (λ n. authorize n d.request)
  ]

  -- `checkIssuancePolicy`: whether the order may be dispatched. An order that is refused loses the
  -- decision that was proposed for it.
  unfoldable pub check_issuance_policy : Task → Order → IssuanceState → Run Bool
  unfolding issue_request ask_policy fail_order reschedule
  check_issuance_policy task o state = do
    built ← issue_request o state
    answer ← ask_policy built
    let undecided = record o { issuance = none }
    elim answer [
      | none ↦ pure true
      | some (final p) ↦ (do fail_order s task undecided p; pure false)
      | some e ↦
          if ltb task.attempts s.workers.max_attempts
          then (do at ← now s; reschedule s task at; pure false)
          else (do
            fail_order s task undecided
                (new_problem server_internal "issuance policy could not be evaluated")
            pure false)
    ]

  -- What follows the snapshot of a dispatch.
  unfoldable pub dispatch : Task → Snapshot → IssuanceState → Run (Option Order)
  unfolding check_issuance_policy fail_order store_dispatch
  dispatch task snap state = do
    allowed ← check_issuance_policy task snap.order state
    if not allowed then pure none else do
      at ← now s
      if not (after state.deadline at)
          then (do
            fail_order s task (record snap.order { issuance = none })
                (new_problem unauthorized "authorization expired before issuance dispatch")
            pure none)
          else store_dispatch s task snap

  -- `beginIssuance`
  unfoldable pub begin : Task → Order → Run (Option Order)
  unfolding dispatch_snapshot dispatch
  begin task o = do
    found ← dispatch_snapshot s task o
    elim found [
      | none ↦ pure none
      | some snap ↦ elim snap.order.issuance [
        | none ↦ pure none
        | some state ↦ dispatch task snap state
      ]
    ]

  abbrev pub unacceptable_certificate : Problem
  unacceptable_certificate =
      new_problem server_internal "issuer returned an unacceptable certificate"

  abbrev pub retained : Order → IssueResult → Order
  retained o result = record o { unpublished_result = some result }

  abbrev pub evidence : Option IssuanceState → List Validation
  evidence none = []
  evidence (some state) = state.validations

  abbrev pub first_der : List Bytes → Bytes
  first_der [] = []
  first_der (der ∷ ders) = der

  -- The certificate of a published chain.
  unfoldable pub issued_certificate : Order → IssueResult → Leaf → Time → Certificate
  issued_certificate o result leaf at = record {
    id = x.certificate_id (first_der result.chain);
    account_id = o.account_id;
    order_id = o.id;
    ca_reference = result.ca_reference;
    chain = result.chain;
    not_before = leaf.not_before;
    not_after = leaf.not_after;
    revoked = false;
    revoked_at = 0;
    revocation_reason = 0;
    revocation_operation_id = "";
    revocation_requested_at = 0;
    renewal_id = x.renewal_id leaf;
    replaced_by_order_id = "";
    validations = evidence o.issuance;
    created_at = at;
    revision = 0;
  }

  abbrev pub completed : Order → Certificate → Order
  completed o cert = record o { status = OrderStatus.valid; certificate_id = cert.id; error = none }

  -- A certificate that exists already is kept beside the order.
  unfoldable pub publish : Task → Order → IssueResult → Certificate → Run (Unit {0})
  unfolding fail_order handle_commit
  publish task o result cert = do
    stored ← call s (λ c. complete_issuance c task (completed o cert) (some cert))
    on stored
        (λ e.
          if is_conflict e
          then fail_order s task (record (retained o result) { error = none; certificate_id = "" })
              (new_problem server_internal "issuer returned a duplicate certificate")
          else handle_commit s task stored)
        λ done. pure tt

  -- The chain may be published, and the CA said nothing else.
  abbrev pub is_unambiguous : IssueResult → Option HostError → Bool
  is_unambiguous result issue_error =
      not (is_some issue_error) && not result.pending && not (is_some result.rejected)

  -- `recordIssuedResult`
  unfoldable pub record_issued_result :
      Task → Order → CertificateRequest → IssueResult → Time → Option HostError → Run (Unit {0})
  unfolding check_chain fail_order publish issued_certificate
  record_issued_result task o csr result at issue_error =
      let refuse = fail_order s task (retained o result) unacceptable_certificate in
      elim (check_chain x s.platform result.chain csr o at) [
        | good_chain leaf ↦
            if not (is_unambiguous result issue_error)
            then refuse
            else publish task o result (issued_certificate o result leaf at)
        | bad_chain e ↦ refuse
        | bad_constraints ↦ refuse
        | bad_element i ↦ refuse
        | unsigned_element i ↦ refuse
      ]

  -- An answer without a chain.
  unfoldable pub record_other_result :
      Task → Order → IssueResult → Time → Option HostError → Run (Unit {0})
  unfolding fail_order reschedule store_reschedule
  record_other_result task o result at (some e) = reschedule s task at
  record_other_result task o result at none = elim result.rejected [
    | some p ↦ if not result.pending then fail_order s task o p else reschedule s task at
    | none ↦
        if result.pending
        then store_reschedule s
            (record task { run_at = at + max result.retry_after s.workers.poll_interval })
        else reschedule s task at
  ]

  -- What follows the dispatch decision.
  unfoldable pub call_issuer : Task → Order → IssuanceState → Run (Unit {0})
  unfolding issue_request record_issued_result record_other_result reschedule
  call_issuer task o state = do
    built ← issue_request o state
    elim built [
      | none ↦ (do at ← now s; reschedule s task at)
      | some d ↦ do
        answer ← ask_host s (λ n. ca.issue n d.request)
        at ← now s
        if has_chain answer.0
            then record_issued_result task o d.csr answer.0 at answer.1
            else record_other_result task o answer.0 at answer.1
    ]

  -- The order after its dispatch decision.
  abbrev pub issue_dispatched : Task → Option Order → Run (Unit {0})
  unfolding call_issuer
  issue_dispatched task none = pure tt
  issue_dispatched task (some o) = elim o.issuance [
    | none ↦ pure tt
    | some state ↦ call_issuer task o state
  ]

  -- `runIssuance`
  unfoldable pub run_issuance : Task → Run (Unit {0})
  unfolding issuance_order begin call_issuer
  run_issuance task = do
    found ← issuance_order s task
    elim found [
      | none ↦ pure tt
      | some o ↦ elim o.issuance [
        | some state ↦ call_issuer task o state
        | none ↦ do dispatched ← begin task o; issue_dispatched task dispatched
      ]
    ]

  -- `process`
  unfoldable pub process : Task → Run (Unit {0})
  unfolding run_validation run_issuance finish
  process task = elim task.kind [
    | validate ↦ run_validation s task
    | issue ↦ run_issuance task
    | other kind ↦ finish s task
  ]
