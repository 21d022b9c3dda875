-- ===== src/Tests/Data.antt =====
-- Test data: two accounts, an order with an authorization and a challenge, a task, and a server with
-- an HTTP validator that no other worker disturbs.
use go_acme_server.Prelude.{ℕ, Option, false, true, none, some, [], ◌∷◌}
use go_acme_server.Status.Account.{AccountStatus}
use go_acme_server.Status.Order.{OrderStatus}
use go_acme_server.Status.Authorization.{AuthorizationStatus}
use go_acme_server.Status.Challenge.{ChallengeStatus}
use go_acme_server.Problem.{Identifier, dns}
use go_acme_server.Prelude.{◌==◌}
use go_acme_server.Platform.{Platform}
use go_acme_server.Server.{Server, ValidationRequest, Validated, granted}
use go_acme_server.Resource.{
  ChallengeType, IssuanceState, Account, Order, Authorization, Challenge, Certificate, Task,
  validate, http01,
}

abbrev pub alice : Account
alice = record {
  id = "a1";
  status = AccountStatus.valid;
  key = 1 ∷ [];
  key_thumbprint = "k1";
  contact = [];
  terms_of_service_agreed = true;
  external_account_id = "";
  external_account_claim = "c1";
  created_at = 1;
  revision = 1;
}

abbrev pub bob : Account
bob = record alice { id = "a2"; key_thumbprint = "k2"; external_account_claim = "" }

abbrev pub example_com : Identifier
example_com = record { kind = dns; value = "example.com" }

abbrev pub an_order : Order
an_order = record {
  id = "o1";
  account_id = "a1";
  status = OrderStatus.pending;
  expires = 100;
  identifiers = example_com ∷ [];
  not_before = 0;
  not_after = 0;
  authorization_ids = "z1" ∷ [];
  error = none;
  csr = [];
  certificate_id = "";
  issuance = none;
  unpublished_result = none;
  replaces = "";
  profile = "";
  created_at = 1;
  revision = 1;
}

abbrev pub an_authz : Authorization
an_authz = record {
  id = "z1";
  account_id = "a1";
  order_id = "o1";
  identifier = example_com;
  status = AuthorizationStatus.pending;
  expires = 100;
  wildcard = false;
  challenge_ids = "h1" ∷ [];
  ca_certificate = false;
  grant_expires = 0;
  grant_names = [];
  grant_nf_type = "";
  pre_approved = false;
  created_at = 1;
  revision = 1;
}

abbrev pub a_challenge : Challenge
a_challenge = record {
  id = "h1";
  authorization_id = "z1";
  account_id = "a1";
  kind = http01;
  status = ChallengeStatus.processing;
  token = "t";
  authority_token = "";
  key_thumbprint = "k1";
  validated = 0;
  error = none;
  revision = 1;
}

abbrev pub a_certificate : Certificate
a_certificate = record {
  id = "e1";
  account_id = "a1";
  order_id = "o1";
  ca_reference = "";
  chain = [];
  not_before = 1;
  not_after = 90;
  revoked = false;
  revoked_at = 0;
  revocation_reason = 0;
  revocation_operation_id = "";
  revocation_requested_at = 0;
  renewal_id = "r1";
  replaced_by_order_id = "";
  validations = [];
  created_at = 1;
  revision = 1;
}

abbrev pub a_task : Task
a_task = record {
  id = "t1";
  kind = validate;
  target_id = "h1";
  account_id = "a1";
  run_at = 5;
  attempts = 0;
  lease_until = 0;
  fence = 0;
  created_at = 1;
}

abbrev answer_http : ℕ → ValidationRequest → Validated
answer_http n req =
    granted (record { ca_certificate = false; expires = 0; names = []; nf_type = "" })

abbrev validators : ChallengeType → Option (ℕ → ValidationRequest → Validated)
validators http01 = some answer_http
validators _ = none

-- A library that knows no addresses, URLs or international names.
abbrev pub a_platform : Platform
a_platform = record {
  lower_other = λ c. c;
  equal_fold = λ s t. s == t;
  parse_addr = λ s. none;
  parse_uri = λ s. none;
  format_uri = λ u. u.host;
  to_unicode = λ s. none;
  to_ascii = λ s. none;
  decode_base64 = λ s. none;
  encode_base64 = λ b. "";
  parse_contact = λ s. none;
  is_bare_address = λ s. false;
  parse_time = λ s. none;
  format_rfc3339 = λ t. "2026-01-01T00:00:00Z";
  quote = λ s. s;
}

abbrev pub a_server : Server
a_server = record {
  workers = record { poll_interval = 1; task_timeout = 30; max_attempts = 3; retry_delay = 2 };
  authz_lifetime = 50;
  max_validations = 4;
  validators = validators;
  clock = λ n. 10;
  ctx = λ n. none;
  ids = λ n. some "x1";
  tokens = λ n. some "y1";
  limits = none;
  tn_auth_list_outlive = false;
  decimal = λ n. "4";
  interfere = λ n store. store;
  interfere_nonces = λ n m. m;
  platform = a_platform;
  config = record {
    base_url = "https://ca/acme/";
    base_path = "/acme/";
    max_body = 100;
    max_identifiers = 2;
    token_authority = "";
    ip_identifiers = false;
    tn_auth_lists = false;
    nf_instance_ids = false;
    order_lifetime = 90;
    profiles = [];
    default_profile = "";
    renewal = false;
    revocation_reasons = 0 ∷ 1 ∷ [];
    reasons_text = "";
    require_tos = false;
    external_account_required = false;
    single_use_eab = false;
  };
  host = record {
    new_account = λ n a. (a, none);
    new_order = λ n a o. (o, none);
    profile_chooser = none;
    pre_approver = none;
    revoke = λ n r. none;
    deep_equal = λ a b. true;
  };
}

abbrev pub a_state : IssuanceState
a_state = record { operation_id = "t1"; authorized_at = 10; deadline = 100; validations = [] }
