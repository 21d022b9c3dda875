-- ===== src/Orders/Response.antt =====
-- order.go: what a client sends to a challenge, and its acceptance.
use Prim.Native.String.{len}
use go_acme_server.Prelude.{
  ℕ, ◌*◌, not, ◌&&◌, String, ◌==◌, Option, none, some, [], ◌∷◌, ltb, leb, if◌then◌else◌, concat,
}
use go_acme_server.Exec.{Result}
use go_acme_server.Status.Authorization.{AuthorizationStatus, is as authorization_is, text}
use go_acme_server.Status.Challenge.{ChallengeStatus, is as challenge_is}
use go_acme_server.Problem.{
  Identifier, Problem, new_problem, with_retry_after, malformed, rate_limited, server_internal,
}
use go_acme_server.Resource.{
  ChallengeType, unset, http01, dns01, tls_alpn01, tk_auth01, other, Time, Account, Authorization,
  Challenge, Task, validate, effective_authz_status,
}
use go_acme_server.Memstore.Authorizations.{authorization, challenge}
use go_acme_server.Memstore.Tasks.{account_validations}
use go_acme_server.Memstore.Work.{accept_challenge}
use go_acme_server.Answer.{Answer, accepted, refused, check_limit}
use go_acme_server.Server.{
  Server, Run, LimitRequest, limit_challenge_response, pure, now, call, on, new_id, is_mismatch,
  ◌>>=◌,
}
use go_acme_server.Orders.Methods.{is_tk_auth01}

-- The payload of a challenge response.
pub record ChallengeResponse : Type 0 where
  pub tk_auth : String
  pub atc : String

unfoldable pub authority_token : ChallengeResponse → String
authority_token p = if not (p.tk_auth == "") then p.tk_auth else p.atc

abbrev pub max_authority_token_length : ℕ
max_authority_token_length = 16 * 1024

abbrev pub type_text : ChallengeType → String
type_text unset = ""
type_text http01 = "http-01"
type_text dns01 = "dns-01"
type_text tls_alpn01 = "tls-alpn-01"
type_text tk_auth01 = "tkauth-01"
type_text (other t) = t

unfoldable pub check_challenge_response : ChallengeType → ChallengeResponse → Option Problem
unfolding authority_token
check_challenge_response kind p =
    if not (is_tk_auth01 kind)
    then if not (authority_token p == "")
      then some (
          new_problem malformed
            (concat "a " (concat (type_text kind) " response does not carry an authority token")))
      else none
    else if authority_token p == ""
    then some
        (new_problem malformed "a tkauth-01 response needs the authority token in tkauth or atc")
    else if not (p.tk_auth == "") && not (p.atc == "") && not (p.tk_auth == p.atc)
    then some (new_problem malformed "the tkauth and atc fields carry different authority tokens")
    else if ltb max_authority_token_length (len (authority_token p))
    then some (new_problem malformed "the authority token exceeds 16384 characters")
    else none

-- `orderIdentifier` of resource.go.
unfoldable pub order_identifier : Authorization → Identifier
order_identifier a =
    if a.wildcard
    then record a.identifier { value = concat "*." a.identifier.value }
    else a.identifier

abbrev pub limit_request : Account → Authorization → ℕ → LimitRequest
unfolding order_identifier
limit_request acc authz pending = record {
  kind = limit_challenge_response;
  account = some acc;
  identifiers = order_identifier authz ∷ [];
  replaces = "";
  pending_validations = pending;
}

module _ (s : Server) where
  -- The outcome of the store's `AcceptChallenge`; only a concurrent response moves the challenge on.
  unfoldable pub after_accept : Challenge → Result (Challenge × Task) → Run (Answer Challenge)
  after_accept ch stored =
      let failed = refused (new_problem server_internal "challenge update failed") in
      on stored
        (λ e. if not (is_mismatch e) then pure failed else do
          current ← call s (λ c. challenge c ch.id)
          on current (λ e'. pure failed)
              λ now_stored.
                if not (challenge_is now_stored.status ChallengeStatus.pending)
                then pure (accepted now_stored)
                else pure failed)
        (λ done. pure (accepted done.0))

  -- The challenge and the validation task that are stored.
  unfoldable pub responded : Challenge → Account → ChallengeResponse → Challenge
  unfolding authority_token
  responded ch acc payload = record ch {
    status = ChallengeStatus.processing;
    key_thumbprint = acc.key_thumbprint;
    authority_token = authority_token payload;
  }

  abbrev pub validation_task : String → Challenge → Account → Time → Task
  validation_task id ch acc at = record {
    id = id;
    kind = validate;
    target_id = ch.id;
    account_id = acc.id;
    run_at = at;
    attempts = 0;
    lease_until = 0;
    fence = 0;
    created_at = at;
  }

  -- Under the limits, the challenge is stored with its validation.
  unfoldable pub enqueue : Challenge → Account → ChallengeResponse → Time → Run (Answer Challenge)
  unfolding after_accept responded
  enqueue ch acc payload at = do
    task_id ← new_id s
    elim task_id [
      | none ↦ pure (refused (new_problem server_internal "challenge update failed"))
      | some id ↦ do
        let ch' = responded ch acc payload
        stored ← call s (λ c. accept_challenge c ch' (validation_task id ch' acc at))
        after_accept ch' stored
    ]

  abbrev pub too_many : ℕ → Problem
  too_many pending = with_retry_after s.workers.task_timeout (
      new_problem rate_limited (
        concat "the account has " (
          concat (s.decimal pending) (
            concat " validations waiting or running, the limit is "
              (s.decimal s.max_validations)))))

  -- The account's validations are bounded before the limiter is asked.
  unfoldable pub within_limits :
      Account → Authorization → (Run (Answer Challenge)) → Run (Answer Challenge)
  unfolding check_limit
  within_limits acc authz go = do
    counted ← call s (λ c. account_validations c acc.id)
    on counted (λ e. pure (refused (new_problem server_internal "validation count failed")))
        λ pending. if leb s.max_validations pending then pure (refused (too_many pending)) else do
          limited ← check_limit s (limit_request acc authz pending)
          elim limited [ some p ↦ pure (refused p) | none ↦ go ]

  -- `acceptChallenge`.
  unfoldable pub accept : Challenge → Account → ChallengeResponse → Run (Answer Challenge)
  unfolding check_challenge_response within_limits enqueue
  accept ch acc payload =
      if not (challenge_is ch.status ChallengeStatus.pending)
      then pure (accepted ch)
      else elim (check_challenge_response ch.kind payload) [
        | some p ↦ pure (refused p)
        | none ↦ do
          found ← call s (λ c. authorization c ch.authorization_id)
          on found (λ e. pure (refused (new_problem server_internal "authorization lookup failed")))
              λ authz. do
                at ← now s
                let status = effective_authz_status authz at
                if not (authorization_is status AuthorizationStatus.pending)
                    then pure
                        (refused (new_problem malformed (concat "authorization is " (text status))))
                    else within_limits acc authz (enqueue ch acc payload at)
      ]
