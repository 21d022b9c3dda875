-- ===== src/Wire.antt =====
-- wire.go: what the clients see of the resources, and the payloads that they send.
use go_acme_server.Prelude.{
  Bool, true, false, not, ◌&&◌, String, ◌==◌, Option, none, some, List, [], ◌∷◌, if◌then◌else◌,
  concat,
}
use go_acme_server.Status.Account.{AccountStatus}
use go_acme_server.Status.Order.{OrderStatus, is as order_is}
use go_acme_server.Status.Authorization.{AuthorizationStatus, is as authorization_is}
use go_acme_server.Status.Challenge.{ChallengeStatus, is as challenge_is}
use go_acme_server.Problem.{Identifier, Problem, new_problem, malformed}
use go_acme_server.Resource.{
  Time, Bytes, ChallengeType, tk_auth01, Account, Order, Authorization, Challenge, is_zero,
  status_at, effective_authz_status,
}
use go_acme_server.Server.{Server}
use go_acme_server.Answer.{Answer, accepted, refused}
use go_acme_server.Requests.{Signed}

pub data Payload (A : Type 0) : Type 0 where
  payload : A → Payload A
  -- The text of the error.
  bad_payload : String → Payload A

-- `decodePayload`, after the parser.
unfoldable pub decode_payload : {A : Type 0} → Payload A → Answer A
decode_payload (payload a) = accepted a
decode_payload (bad_payload e) = refused (new_problem malformed (concat "request payload: " e))

abbrev pub is_empty_payload : Bytes → Bool
is_empty_payload [] = true
is_empty_payload _ = false

unfoldable pub require_empty_payload : Signed → Option Problem
require_empty_payload req =
    if not (is_empty_payload req.payload)
    then some (new_problem malformed "this resource only accepts POST-as-GET requests")
    else none

-- `accountJSON`
pub record AccountView : Type 0 where
  pub status : AccountStatus
  pub contact : List String
  pub terms_of_service_agreed : Bool
  pub orders : String

-- `orderJSON`
pub record OrderView : Type 0 where
  pub status : OrderStatus
  pub expires : String
  pub identifiers : List Identifier
  pub not_before : String
  pub not_after : String
  pub error : Option Problem
  pub authorizations : List String
  pub finalize : String
  pub certificate : String
  pub replaces : String
  pub profile : String

-- `challengeJSON`
pub record ChallengeView : Type 0 where
  pub kind : ChallengeType
  pub url : String
  pub status : ChallengeStatus
  pub token : String
  pub tk_auth_type : String
  pub token_authority : String
  pub validated : String
  pub error : Option Problem

-- `authorizationJSON`
pub record AuthorizationView : Type 0 where
  pub identifier : Identifier
  pub status : AuthorizationStatus
  pub expires : String
  pub challenges : List ChallengeView
  pub wildcard : Bool

abbrev pub is_tk_auth : ChallengeType → Bool
is_tk_auth tk_auth01 = true
is_tk_auth _ = false

module _ (s : Server) where
  -- `resourceURL`
  abbrev pub url_of : String → String
  url_of rel = concat s.config.base_url rel

  -- `formatTime`
  abbrev pub format_time : Time → String
  format_time t = if is_zero t then "" else s.platform.format_rfc3339 t

  -- `accountURL`
  abbrev pub account_url : String → String
  account_url id = url_of (concat "acct/" id)

  unfoldable pub account_view : Account → AccountView
  account_view a = record {
    status = a.status;
    contact = a.contact;
    terms_of_service_agreed = a.terms_of_service_agreed;
    orders = concat (account_url a.id) "/orders";
  }

  abbrev pub authz_urls : List String → List String
  authz_urls [] = []
  authz_urls (id ∷ ids) = url_of (concat "authz/" id) ∷ authz_urls ids

  unfoldable pub order_view : Order → Time → OrderView
  order_view o now =
      let status = status_at o now in
      record {
        status = status;
        expires = format_time o.expires;
        identifiers = o.identifiers;
        not_before = format_time o.not_before;
        not_after = format_time o.not_after;
        error = o.error;
        authorizations = authz_urls o.authorization_ids;
        finalize = url_of (concat "order/" (concat o.id "/finalize"));
        certificate =
            if not (o.certificate_id == "") && order_is status OrderStatus.valid
            then url_of (concat "cert/" o.certificate_id)
            else "";
        replaces = o.replaces;
        profile = o.profile;
      }

  unfoldable pub challenge_view : Challenge → ChallengeView
  challenge_view ch = record {
    kind = ch.kind;
    url = url_of (concat "chall/" ch.id);
    status = ch.status;
    token = ch.token;
    tk_auth_type = if is_tk_auth ch.kind then "atc" else "";
    token_authority = if is_tk_auth ch.kind then s.config.token_authority else "";
    validated = format_time ch.validated;
    error = ch.error;
  }

  -- A valid authorization lists only the challenge that validated it.
  unfoldable pub challenge_views : AuthorizationStatus → List Challenge → List ChallengeView
  unfolding challenge_view
  challenge_views status [] = []
  challenge_views status (ch ∷ chs) =
      let rest = challenge_views status chs in
      if authorization_is status AuthorizationStatus.valid
        && not (challenge_is ch.status ChallengeStatus.valid)
      then rest
      else challenge_view ch ∷ rest

  unfoldable pub authorization_view : Authorization → List Challenge → Time → AuthorizationView
  unfolding challenge_views
  authorization_view a challenges now =
      let status = effective_authz_status a now in
      record {
        identifier = a.identifier;
        status = status;
        expires = format_time a.expires;
        challenges = challenge_views status challenges;
        wildcard = a.wildcard;
      }
