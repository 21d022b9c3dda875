-- ===== src/Orders/Finalize.antt =====
-- finalize.go: a certificate request for a ready order. The refusal records and the wake-up of the
-- worker are left out.
use go_acme_server.Prelude.{
  Bool, true, not, ◌&&◌, ◌||◌, String, ◌==◌, Option, none, some, List, [], ◌∷◌, ◌++◌, if◌then◌else◌,
  concat,
}
use go_acme_server.Exec.{Result, ok, err}
use go_acme_server.Status.Order.{OrderStatus, is as order_is, text as order_text}
use go_acme_server.Problem.{
  Identifier, Problem, new_problem, malformed, order_not_ready, invalid_profile, server_internal,
}
use go_acme_server.Resource.{Time, Bytes, Account, Order, Authorization, Task, issue, status_at}
use go_acme_server.Memstore.Orders.{order}
use go_acme_server.Memstore.Authorizations.{authorization}
use go_acme_server.Memstore.Work.{finalize_order}
use go_acme_server.Server.{Server, Run, pure, now, call, new_id, on, is_mismatch, ◌>>=◌}
use go_acme_server.Answer.{Answer, accepted, refused, then_with, unless, store_problem}
use go_acme_server.Requests.{Request}
use go_acme_server.Wire.{decode_payload, is_empty_payload, OrderView, order_view}
use go_acme_server.Certs.{CertificateRequest, X509, found, unacceptable, csr_ca_certificate}
use go_acme_server.Certs.Request.{same_bytes, bad_request, check_csr}
use go_acme_server.Certs.Chain.{same_flag}
use go_acme_server.Orders.New.{has_text}
use go_acme_server.Orders.Serve.{Wire, read_owned_order}

-- What the authorizations grant beyond their identifiers.
abbrev pub names_granted : List Authorization → List Identifier
names_granted [] = []
names_granted (a ∷ more) = a.grant_names ++ names_granted more

abbrev pub all_granted : Bool → List Authorization → Bool
all_granted requested [] = true
all_granted requested (a ∷ more) =
    same_flag a.ca_certificate requested && all_granted requested more

abbrev pub not_ready : String → Problem
not_ready detail = new_problem order_not_ready detail

abbrev pub not_finalized : Problem
not_finalized = new_problem server_internal "finalization failed"

abbrev pub is_finalized : OrderStatus → Bool
is_finalized status = order_is status OrderStatus.processing || order_is status OrderStatus.valid

module _ (s : Server) (x : X509) where
  -- `checkCAGrants`
  unfoldable pub check_ca_grants : List Authorization → CertificateRequest → Option Problem
  unfolding csr_ca_certificate
  check_ca_grants authzs csr = elim (csr_ca_certificate x s.platform csr.subject.extensions) [
    | unacceptable ↦ some (bad_request "CSR basic constraints could not be read")
    | found requested ↦
        if not (all_granted requested authzs)
        then some (bad_request "CSR CA basic constraint does not match the granted authorization")
        else none
  ]

  -- `orderAuthorizations`
  unfoldable pub order_authorizations : List String → Run (Answer (List Authorization))
  order_authorizations [] = pure (accepted [])
  order_authorizations (id ∷ ids) = do
    read ← call s (λ c. authorization c id)
    on read (λ e. pure (refused (store_problem e "authorization")))
        λ a. do rest ← order_authorizations ids; then_with rest λ more. pure (accepted (a ∷ more))

  abbrev pub issue_task : String → Order → Time → Task
  issue_task id o at = record {
    id = id;
    kind = issue;
    target_id = o.id;
    account_id = o.account_id;
    run_at = at;
    attempts = 0;
    lease_until = 0;
    fence = 0;
    created_at = at;
  }

  abbrev pub submitted : Order → Bytes → Order
  submitted o der = record o { status = OrderStatus.processing; csr = der }

  -- An order that another request finalized with the same CSR is answered as it is.
  unfoldable pub after_finalize :
      Order → Bytes → Time → Result (Order × Task) → Run (Answer OrderView)
  unfolding order_view
  after_finalize o der at (ok (updated, task)) = pure (accepted (order_view s updated at))
  after_finalize o der at (err e) =
      let changed = pure (refused (not_ready "order changed concurrently, retry the request")) in
      if not (is_mismatch e) then pure (refused not_finalized) else do
        read ← call s (λ c. order c o.id)
        on read (λ e'. changed)
            λ current.
              if not (same_bytes current.csr der)
              then changed
              else pure (accepted (order_view s current at))

  -- The order and its issuance task are stored.
  unfoldable pub submit : Order → Bytes → Time → Run (Answer OrderView)
  unfolding after_finalize
  submit o der at = do
    id ← new_id s
    elim id [
      | none ↦ pure (refused not_finalized)
      | some task_id ↦ do
        stored ← call s (λ c. finalize_order c (submitted o der) (issue_task task_id o at))
        after_finalize o der at stored
    ]

  -- The checks of a ready order.
  unfoldable pub finalize_ready : Account → Order → Bytes → Time → Run (Answer OrderView)
  unfolding order_authorizations check_csr check_ca_grants submit
  finalize_ready account o der at =
      if not (o.profile == "") && not (has_text o.profile s.config.profiles)
      then pure (
          refused
            (new_problem invalid_profile "the server no longer offers the profile of this order"))
      else do
        loaded ← order_authorizations o.authorization_ids
        then_with loaded λ authzs.
            then_with (check_csr x s.platform der o account (names_granted authzs))
              λ csr. unless (check_ca_grants authzs csr) (submit o der at)

  -- The order that the client sees decides.
  unfoldable pub finalize_order_of : Account → Order → Bytes → Run (Answer OrderView)
  unfolding finalize_ready order_view
  finalize_order_of account o der = do
    at ← now s
    let status = status_at o at
    if order_is status OrderStatus.ready
        then finalize_ready account o der at
        else if is_finalized status && same_bytes o.csr der
        then pure (accepted (order_view s o at))
        else if is_finalized status
        then pure (refused (not_ready "order was already finalized with a different CSR"))
        else pure (refused (not_ready (concat "order is " (order_text status))))

  -- The decoded request, none where it is empty too.
  abbrev pub decoded_csr : Option Bytes → Answer Bytes
  decoded_csr none = refused (new_problem malformed "csr is not valid base64url")
  decoded_csr (some der) =
      if is_empty_payload der
      then refused (new_problem malformed "csr is not valid base64url")
      else accepted der

  -- `serveFinalize`
  unfoldable pub serve_finalize : Wire → Request → String → Run (Answer OrderView)
  unfolding read_owned_order decode_payload finalize_order_of
  serve_finalize wire r id = do
    read ← read_owned_order s wire r id (concat "order/" (concat id "/finalize"))
    then_with read λ (signed, account, o).
        then_with (decode_payload (wire.finalize signed.payload)) λ csr.
          then_with (decoded_csr (s.platform.decode_base64 csr))
            λ der. finalize_order_of account o der
