-- ===== src/Resource.antt =====
-- resource.go, work.go and the results of issuer.go: the stored resources. A time is a number of
-- nanoseconds after Go's zero time, which is 0, and a duration a number of nanoseconds; a key and
-- a DER value are their bytes.
use go_acme_server.Prelude.{
  ℕ, Bool, ◌&&◌, ◌||◌, not, String, Option, List, ltb, ◌=?◌, if◌then◌else◌,
}
use go_acme_server.Problem.{Identifier, Problem}
use go_acme_server.Status.Account.{AccountStatus}
use go_acme_server.Status.Order.{OrderStatus, is as order_is}
use go_acme_server.Status.Authorization.{AuthorizationStatus, is as authorization_is}
use go_acme_server.Status.Challenge.{ChallengeStatus}

abbrev pub Time : Type 0
Time = ℕ

abbrev pub Bytes : Type 0
Bytes = List ℕ

abbrev pub after : Time → Time → Bool
after t u = ltb u t

abbrev pub before : Time → Time → Bool
before t u = ltb t u

abbrev pub is_zero : Time → Bool
is_zero t = t =? 0

pub data ChallengeType : Type 0 where
  -- The empty text.
  unset : ChallengeType
  http01 dns01 tls_alpn01 tk_auth01 : ChallengeType
  other : String → ChallengeType

pub record Account : Type 0 where
  pub id : String
  pub status : AccountStatus
  pub key : Bytes
  pub key_thumbprint : String
  pub contact : List String
  pub terms_of_service_agreed : Bool
  pub external_account_id : String
  pub external_account_claim : String
  pub created_at : Time
  pub revision : ℕ

-- How one identifier of an order was validated.
pub record Validation : Type 0 where
  pub identifier : Identifier
  pub kind : ChallengeType
  pub validated : Time
  pub ca_certificate : Bool
  pub grant_expires : Time
  pub names : List Identifier
  pub nf_type : String
  pub pre_approved : Bool

pub record IssuanceState : Type 0 where
  pub operation_id : String
  pub authorized_at : Time
  pub deadline : Time
  pub validations : List Validation

pub record IssueResult : Type 0 where
  pub chain : List Bytes
  pub ca_reference : String
  pub pending : Bool
  pub retry_after : ℕ
  pub rejected : Option Problem

pub record Order : Type 0 where
  pub id : String
  pub account_id : String
  pub status : OrderStatus
  pub expires : Time
  pub identifiers : List Identifier
  pub not_before : Time
  pub not_after : Time
  pub authorization_ids : List String
  pub error : Option Problem
  pub csr : Bytes
  pub certificate_id : String
  pub issuance : Option IssuanceState
  pub unpublished_result : Option IssueResult
  pub replaces : String
  pub profile : String
  pub created_at : Time
  pub revision : ℕ

-- The status that clients see at `now`: an expired pending or ready order is invalid.
unfoldable pub status_at : Order → Time → OrderStatus
status_at o now =
    if (order_is o.status OrderStatus.pending || order_is o.status OrderStatus.ready)
      && not (after o.expires now)
    then OrderStatus.invalid
    else o.status

pub record Authorization : Type 0 where
  pub id : String
  pub account_id : String
  pub order_id : String
  pub identifier : Identifier
  pub status : AuthorizationStatus
  pub expires : Time
  pub wildcard : Bool
  pub challenge_ids : List String
  pub ca_certificate : Bool
  pub grant_expires : Time
  pub grant_names : List Identifier
  pub grant_nf_type : String
  pub pre_approved : Bool
  pub created_at : Time
  pub revision : ℕ

-- `effectiveAuthzStatus` of wire.go: an expired pending or valid authorization is expired.
unfoldable pub effective_authz_status : Authorization → Time → AuthorizationStatus
effective_authz_status a now =
    if (authorization_is a.status AuthorizationStatus.pending
        || authorization_is a.status AuthorizationStatus.valid)
      && not (after a.expires now)
    then AuthorizationStatus.expired
    else a.status

pub record Challenge : Type 0 where
  pub id : String
  pub authorization_id : String
  pub account_id : String
  pub kind : ChallengeType
  pub status : ChallengeStatus
  pub token : String
  pub authority_token : String
  pub key_thumbprint : String
  pub validated : Time
  pub error : Option Problem
  pub revision : ℕ

pub record Certificate : Type 0 where
  pub id : String
  pub account_id : String
  pub order_id : String
  pub ca_reference : String
  pub chain : List Bytes
  pub not_before : Time
  pub not_after : Time
  pub revoked : Bool
  pub revoked_at : Time
  pub revocation_reason : ℕ
  pub revocation_operation_id : String
  pub revocation_requested_at : Time
  pub renewal_id : String
  pub replaced_by_order_id : String
  pub validations : List Validation
  pub created_at : Time
  pub revision : ℕ

pub data TaskKind : Type 0 where
  validate issue : TaskKind
  other : String → TaskKind

pub record Task : Type 0 where
  pub id : String
  pub kind : TaskKind
  pub target_id : String
  pub account_id : String
  pub run_at : Time
  pub attempts : ℕ
  pub lease_until : Time
  pub fence : ℕ
  pub created_at : Time
