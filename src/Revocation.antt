-- ===== src/Revocation.antt =====
-- revoke.go: the revocation of a certificate. The refusal records are left out, and a write that is
-- detached from the request of the client is a call of the store like any other.
pub mod Recorded
pub mod Authorized
pub mod Complete
use go_acme_server.Prelude.{
  ℕ, zero, suc, Bool, true, false, not, ◌&&◌, ◌||◌, String, ◌==◌, Option, none, some, List, [], ◌∷◌,
  ◌=?◌, if◌then◌else◌, concat,
}
use go_acme_server.Exec.{StoreError, Result, ok, err}
use go_acme_server.Problem.{
  IdentifierType, nf_instance_id, Identifier, Problem, new_problem, with_status, malformed,
  unauthorized, bad_public_key, already_revoked, bad_revocation_reason, server_internal,
}
use go_acme_server.Resource.{Time, Bytes, Account, Certificate}
use go_acme_server.Memstore.Certificates.{certificate, update_certificate, authorized_for}
use go_acme_server.Server.{
  Server, Run, HostError, final, retryable, failure, RevokeRequest, pure, now, call, new_id,
  ask_host, on, is_not_found, is_mismatch, ◌>>=◌, ◌>>◌,
}
use go_acme_server.Answer.{Answer, accepted, refused, then_with, unless, store_problem}
use go_acme_server.Requests.{KeyMode, either_mode, Request, Signed, Received, read_signed_request}
use go_acme_server.Wire.{Payload, decode_payload, is_empty_payload}
use go_acme_server.Certs.{Leaf, X509, Found, found, unacceptable, has_type}
use go_acme_server.Certs.Request.{same_bytes}
use go_acme_server.Certs.Chain.{revocation_identifiers}
use go_acme_server.Orders.Serve.{Wire}

-- `revokeJSON`, with the reason 0 where none is given.
pub record Revoke : Type 0 where
  pub certificate : String
  pub reason : ℕ

abbrev pub no_operation : Certificate → Certificate
no_operation cert = record cert {
  revocation_operation_id = "";
  revocation_reason = 0;
  revocation_requested_at = 0;
}

abbrev pub not_recorded : Problem
not_recorded = new_problem server_internal "revocation could not be recorded"

abbrev pub has_reason : ℕ → List ℕ → Bool
has_reason n [] = false
has_reason n (r ∷ rs) = r =? n || has_reason n rs

-- `len(cert.Chain) == 0 || !bytes.Equal(cert.Chain[0], der)`
abbrev pub starts_otherwise : List Bytes → Bytes → Bool
starts_otherwise [] der = true
starts_otherwise (leaf ∷ chain) der = not (same_bytes leaf der)

abbrev pub not_issued : Problem
not_issued = with_status 404 (new_problem malformed "certificate was not issued by this server")

-- What a certificate is looked up as.
abbrev pub issued_certificate : Bytes → Result Certificate → Answer Certificate
issued_certificate der (ok cert) =
    if starts_otherwise cert.chain der then refused not_issued else accepted cert
issued_certificate der (err e) =
    if not (is_not_found e) then refused (store_problem e "certificate") else refused not_issued

abbrev pub not_its_key : Problem
not_its_key = new_problem unauthorized "the signing key is not the certificate key"

module _ (s : Server) (x : X509) where
  -- A request that the certificate's own key signed.
  unfoldable pub check_signer : Bytes → Leaf → Option Problem
  check_signer key leaf = elim (x.thumbprint key) [
    | none ↦ some (new_problem bad_public_key "signing key cannot be thumbprinted")
    | some signer ↦ elim leaf.thumbprint [
      | none ↦ some not_its_key
      | some cert_key ↦ if not (signer == cert_key) then some not_its_key else none
    ]
  ]

  -- An account that did not order the certificate.
  unfoldable pub check_other_account : Account → Leaf → Run (Option Problem)
  unfolding revocation_identifiers
  check_other_account account leaf = elim (revocation_identifiers x s.platform leaf.subject) [
    | unacceptable ↦
        pure (some (new_problem unauthorized "certificate identifiers cannot be authorized"))
    | found ids ↦
        if has_type x s.platform nf_instance_id ids
        then pure (
            some (
              new_problem unauthorized
                "a network function certificate is revoked by the enrolling account or with the certificate key"))
        else do
          at ← now s
          allowed ← call s (λ c. authorized_for c account.id ids at)
          on allowed (λ e. pure (some (store_problem e "authorization")))
              λ is_authorized. pure (
                if is_authorized
                then none
                else some (
                    new_problem unauthorized
                      "the signing account is not authorized for every certificate identifier"))
  ]

  -- `authorizeRevocation`
  unfoldable pub authorize_revocation : Signed → Certificate → Leaf → Run (Option Problem)
  unfolding check_signer check_other_account
  authorize_revocation signed cert leaf = elim signed.account [
    | some account ↦
        if account.id == cert.account_id then pure none else check_other_account account leaf
    | none ↦ pure (check_signer signed.key leaf)
  ]

  abbrev pub begun : Certificate → String → ℕ → Time → Certificate
  begun cert id reason at = record cert {
    revocation_operation_id = id;
    revocation_reason = reason;
    revocation_requested_at = at;
  }

  -- `for range 2` of `beginRevocation`, with the rounds left.
  unfoldable pub begin_loop : ℕ → Certificate → ℕ → Run (Answer Certificate)
  begin_loop zero cert reason = pure (refused not_recorded)
  begin_loop (suc rounds) cert reason =
      if cert.revoked
      then pure (refused (new_problem already_revoked "certificate is already revoked"))
      else if not (cert.revocation_operation_id == "")
      then pure (accepted cert)
      else do
        id ← new_id s
        elim id [
          | none ↦ pure (refused not_recorded)
          | some new ↦ do
            at ← now s
            stored ← call s (λ c. update_certificate c (begun cert new reason at))
            on stored
                (λ e. if not (is_mismatch e) then pure (refused not_recorded) else do
                  read ← call s (λ c. certificate c cert.id)
                  on read (λ e'. pure (refused (store_problem e' "certificate")))
                      λ current. begin_loop rounds current reason)
                λ updated. pure (accepted updated)
        ]

  -- `beginRevocation`
  unfoldable pub begin_revocation : Certificate → ℕ → Run (Answer Certificate)
  unfolding begin_loop
  begin_revocation cert reason = begin_loop 2 cert reason

  -- The certificate that `recordRevocation` writes for the operation of `cert`.
  abbrev pub revoked_by : Certificate → Certificate → Time → Certificate
  revoked_by operation cert at = record cert {
    revoked = true;
    revoked_at = at;
    revocation_operation_id = operation.revocation_operation_id;
    revocation_reason = operation.revocation_reason;
    revocation_requested_at = operation.revocation_requested_at;
  }

  -- `for range 2` of `recordRevocation`; the error of the last round is left at its end.
  unfoldable pub record_loop : ℕ → Certificate → Certificate → Run (Option Problem)
  record_loop zero operation cert = pure (some not_recorded)
  record_loop (suc rounds) operation cert = do
    at ← now s
    stored ← call s (λ c. update_certificate c (revoked_by operation cert at))
    on stored
        (λ e. if not (is_mismatch e) then pure (some not_recorded) else do
          read ← call s (λ c. certificate c cert.id)
          on read (λ e'. pure (some not_recorded))
              λ current.
                if current.revoked then pure none else record_loop rounds operation current)
        λ updated. pure none

  -- `recordRevocation`
  unfoldable pub record_revocation : Certificate → Run (Option Problem)
  unfolding record_loop
  record_revocation cert = record_loop 2 cert cert

  -- `abandonRevocation`
  unfoldable pub abandon_revocation : Certificate → Run (Unit {0})
  abandon_revocation cert = do
    stored ← call s (λ c. update_certificate c (no_operation cert))
    pure tt

  abbrev pub account_id_of : Option Account → String
  account_id_of none = ""
  account_id_of (some account) = account.id

  abbrev pub revoke_request : Signed → Certificate → Bytes → RevokeRequest
  revoke_request signed cert der = record {
    operation_id = cert.revocation_operation_id;
    der = der;
    reason = cert.revocation_reason;
    account_id = account_id_of signed.account;
  }

  -- What follows the answer of the CA; an operation that it refuses is cleared.
  unfoldable pub after_revoke : Certificate → Option HostError → Run (Option Problem)
  unfolding record_revocation abandon_revocation
  after_revoke cert none = record_revocation cert
  after_revoke cert (some (final p)) = do abandon_revocation cert; pure (some p)
  after_revoke cert (some e) = pure (some (new_problem server_internal "revocation failed"))

  -- The certificate is known, and the request may revoke it.
  unfoldable pub revoke_certificate : Signed → Certificate → Bytes → Leaf → ℕ → Run (Option Problem)
  unfolding authorize_revocation begin_revocation after_revoke
  revoke_certificate signed cert der leaf reason = do
    denied ← authorize_revocation signed cert leaf
    elim denied [
      | some p ↦ pure (some p)
      | none ↦ do
        begun_cert ← begin_revocation cert reason
        elim begun_cert [
          | refused p ↦ pure (some p)
          | accepted operation ↦ do
            answer ← ask_host s (λ n. s.host.revoke n (revoke_request signed operation der))
            after_revoke operation answer
        ]
    ]

  -- The checks of the certificate that is named.
  unfoldable pub revoke_der : Signed → Bytes → ℕ → Run (Option Problem)
  unfolding revoke_certificate
  revoke_der signed der reason = elim (x.parse_certificate der) [
    | none ↦ pure (some (new_problem malformed "certificate could not be parsed"))
    | some leaf ↦
        if not (has_reason reason s.config.revocation_reasons)
        then pure (
            some (
              new_problem bad_revocation_reason (
                concat "revocation reason "
                  (concat (s.decimal reason) (concat " is not allowed. " s.config.reasons_text)))))
        else do
          read ← call s (λ c. certificate c (x.certificate_id der))
          elim (issued_certificate der read) [
            | refused p ↦ pure (some p)
            | accepted cert ↦ revoke_certificate signed cert der leaf reason
          ]
  ]

  abbrev pub revoke_payload : Signed → Answer Revoke → Run (Option Problem)
  unfolding revoke_der
  revoke_payload signed (refused p) = pure (some p)
  revoke_payload signed (accepted payload) = elim (s.platform.decode_base64 payload.certificate) [
    | none ↦ pure (some (new_problem malformed "certificate is not valid base64url"))
    | some der ↦
        if is_empty_payload der
        then pure (some (new_problem malformed "certificate is not valid base64url"))
        else revoke_der signed der payload.reason
  ]

  -- `serveRevokeCert`: the problem that is answered, none for the status 200.
  unfoldable pub serve_revoke_cert :
      Wire → (Bytes → Payload Revoke) → Request → Run (Option Problem)
  unfolding read_signed_request decode_payload revoke_der
  serve_revoke_cert wire parse_revoke r = do
    received ← read_signed_request s wire.algorithms wire.parse r "revoke-cert" either_mode
    elim received.answer [
      | refused p ↦ pure (some p)
      | accepted signed ↦ revoke_payload signed (decode_payload (parse_revoke signed.payload))
    ]
