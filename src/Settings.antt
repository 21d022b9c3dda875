-- ===== src/Settings.antt =====
-- server.go, config.go: the checks of a configuration and its defaults. A nil interface is a flag
-- that is false, and a URL is what the program reads of it.
pub mod Workers
use Prim.Native.String
use Prim.Native.String.{String, len}
use Prim.Native.Char.{Char, code}
use go_acme_server.Prelude.{
  ℕ, ◌*◌, ◌/◌, ◌%◌, ◌^◌, min, max, Bool, true, false, not, ◌&&◌, ◌||◌, ◌==◌, Option, none, some,
  List, [], ◌∷◌, ltb, leb, ◌=?◌, if◌then◌else◌, concat,
}
use go_acme_server.Platform.{Platform, Uri}
use go_acme_server.Resource.{ChallengeType, unset, http01, dns01, tls_alpn01, tk_auth01, other}
use go_acme_server.Orders.New.{has_text}
use go_acme_server.Orders.Response.{type_text}

-- An int or a duration, which may be negative.
pub data ℤ : Type 0 where
  pos negsuc : ℕ → ℤ

abbrev pub is_negative : ℤ → Bool
is_negative (pos n) = false
is_negative (negsuc n) = true

-- The value of one that is not negative.
abbrev pub value : ℤ → ℕ
value (pos n) = n
value (negsuc n) = 0

-- `WorkerConfig` as the host sets it.
pub record WorkerSettings (A : Type 0) : Type 0 where
  pub concurrency : A
  pub poll_interval : A
  pub lease : A
  pub task_timeout : A
  pub max_attempts : A
  pub retry_delay : A
  pub stale_after : A

pub data Checked (A : Type 0) : Type 0 where
  usable : A → Checked A
  unusable : String → Checked A

abbrev pub second : ℕ
second = 1000000000

abbrev pub or_default : ℕ → ℕ → ℕ
or_default n default = if n =? 0 then default else n

abbrev pub any_negative : WorkerSettings ℤ → Bool
any_negative c =
    is_negative c.concurrency
    || is_negative c.poll_interval
    || is_negative c.lease
    || is_negative c.task_timeout
    || is_negative c.max_attempts
    || is_negative c.retry_delay
    || is_negative c.stale_after

-- The double of a duration, which is a signed 64-bit integer: one that wraps around to a negative
-- one is below every duration that it is compared with, as 0 is.
unfoldable pub twice : ℕ → ℕ
twice n = let d = (2 * n) % 2 ^ 64 in if ltb d (2 ^ 63) then d else 0

-- Each of the two defaults follows the other where only one is set.
unfoldable pub lease_or_default : ℕ → ℕ → ℕ × ℕ
unfolding twice
lease_or_default lease task_timeout =
    if lease =? 0 && task_timeout =? 0
    then (120 * second, 30 * second)
    else if lease =? 0
    then (max (120 * second) (twice task_timeout), task_timeout)
    else if task_timeout =? 0
    then (lease, min (30 * second) (lease / 2))
    else (lease, task_timeout)

abbrev pub settled : WorkerSettings ℤ → ℕ × ℕ → WorkerSettings ℕ
settled c times = record {
  concurrency = or_default (value c.concurrency) 4;
  poll_interval = or_default (value c.poll_interval) second;
  lease = times.0;
  task_timeout = times.1;
  max_attempts = or_default (value c.max_attempts) 5;
  retry_delay = or_default (value c.retry_delay) (5 * second);
  stale_after = or_default (value c.stale_after) (60 * second);
}

-- `withDefaults`
unfoldable pub with_defaults : WorkerSettings ℤ → Checked (WorkerSettings ℕ)
unfolding twice lease_or_default
with_defaults c =
    let times = lease_or_default (value c.lease) (value c.task_timeout) in
    if any_negative c
    then unusable "Config.Workers values must not be negative"
    else if times.1 =? 0 || ltb times.0 (twice times.1)
    then unusable "Config.Workers.Lease must be at least twice TaskTimeout"
    else usable (settled c times)

-- `Profile`
pub record Profile : Type 0 where
  pub name : String
  pub description : String
  pub url : String
  -- utf8.ValidString of the description.
  pub is_valid_utf8 : Bool

-- `Config`, as far as `validate` reads it.
pub record Configured : Type 0 where
  pub has_store : Bool
  pub has_nonces : Bool
  pub has_issuer : Bool
  pub has_revoker : Bool
  -- The validators in the order of the loop; a nil one is false.
  pub validators : List (ChallengeType × Bool)
  pub has_external_accounts : Bool
  pub external_account_required : Bool
  pub single_use_external_accounts : Bool
  pub require_terms_of_service_agreed : Bool
  pub terms_of_service : String
  pub max_request_body : ℤ
  pub order_lifetime : ℤ
  pub authorization_lifetime : ℤ
  pub max_identifiers : ℤ
  pub max_pending_validations : ℤ
  pub detached_write_timeout : ℤ
  pub tn_auth_list_identifiers : Bool
  pub tn_auth_list_certificates_outlive_tokens : Bool
  pub nf_instance_id_identifiers : Bool
  pub token_authority : String
  pub revocation_reasons : List ℤ
  pub profiles : List Profile
  pub default_profile : String

abbrev pub has_negative_limit : Configured → Bool
has_negative_limit c =
    is_negative c.max_request_body
    || is_negative c.order_lifetime
    || is_negative c.authorization_lifetime
    || is_negative c.max_identifiers
    || is_negative c.max_pending_validations
    || is_negative c.detached_write_timeout

abbrev pub is_tk_auth : ChallengeType → Bool
is_tk_auth tk_auth01 = true
is_tk_auth _ = false

abbrev pub has_token_validator : List (ChallengeType × Bool) → Bool
has_token_validator [] = false
has_token_validator ((kind, present) ∷ more) =
    is_tk_auth kind && present || has_token_validator more

abbrev pub is_known_type : ChallengeType → Bool
is_known_type unset = false
is_known_type (other t) = false
is_known_type _ = true

abbrev pub check_validators : List (ChallengeType × Bool) → Option String
check_validators [] = none
check_validators ((kind, present) ∷ more) =
    let rest = check_validators more in
    if not present
    then some (concat "Config.Validators[" (concat (type_text kind) "] is nil"))
    else if not (is_known_type kind)
    then some (concat "Config.Validators has the unknown challenge type " (type_text kind))
    else rest

abbrev pub is_alphanumeric : ℕ → Bool
is_alphanumeric n = leb 97 n && leb n 122 || leb 65 n && leb n 90 || leb 48 n && leb n 57

abbrev pub is_name_char : ℕ → Bool
is_name_char n = is_alphanumeric n || n =? 46 || n =? 95 || n =? 45

abbrev pub all_name_chars : String → Bool
all_name_chars String.[] = true
all_name_chars (String.◌∷◌ c s) = is_name_char (code c) && all_name_chars s

abbrev pub starts_alphanumeric : String → Bool
starts_alphanumeric String.[] = true
starts_alphanumeric (String.◌∷◌ c s) = is_alphanumeric (code c)

-- `validProfileName`
unfoldable pub valid_profile_name : String → Bool
valid_profile_name name =
    not (name == "") && not (ltb 64 (len name)) && starts_alphanumeric name && all_name_chars name

module _ (p : Platform) where
  abbrev pub is_plain_https : Option Uri → Bool
  is_plain_https none = false
  is_plain_https (some u) =
      u.scheme == "https"
      && not (u.host == "")
      && not u.has_user
      && u.fragment == ""
      && u.opaque == ""

  -- `isHTTPSURL`
  unfoldable pub is_https_url : String → Bool
  is_https_url raw = is_plain_https (p.parse_uri raw)

  abbrev pub same_emptiness : String → String → Bool
  same_emptiness a b = if a == "" then b == "" else not (b == "")

  unfoldable pub check_profile : List String → Profile → Option String
  unfolding valid_profile_name is_https_url
  check_profile seen profile =
      let entry = concat "Config.Profiles[" profile.name in
      if not (valid_profile_name profile.name)
      then some (concat "Config.Profiles has the invalid name " (p.quote profile.name))
      else if has_text profile.name seen
      then some (concat "Config.Profiles names " (concat profile.name " twice"))
      else if same_emptiness profile.description profile.url
      then some (concat entry "] needs exactly one of Description and URL")
      else if not (profile.url == "") && not (is_https_url profile.url)
      then some (concat entry "].URL must be an absolute https URL")
      else if not (profile.description == "") && not profile.is_valid_utf8
      then some (concat entry "].Description must be valid UTF-8")
      else none

  unfoldable pub check_profiles : List String → List Profile → String → Option String
  unfolding check_profile
  check_profiles seen [] default_profile =
      if not (has_text default_profile seen)
      then some "Config.DefaultProfile must name one of Config.Profiles"
      else none
  check_profiles seen (profile ∷ profiles) default_profile =
      let rest = check_profiles (profile.name ∷ seen) profiles default_profile in
      elim (check_profile seen profile) [ some e ↦ some e | none ↦ rest ]

  -- `validateProfiles`
  unfoldable pub validate_profiles : List Profile → String → Option String
  unfolding check_profiles
  validate_profiles [] default_profile =
      if not (default_profile == "")
      then some "Config.DefaultProfile needs Config.Profiles"
      else none
  validate_profiles (profile ∷ profiles) default_profile =
      check_profiles [] (profile ∷ profiles) default_profile

  -- `validateAuthorityTokens`
  unfoldable pub validate_authority_tokens : Configured → Option String
  unfolding is_https_url
  validate_authority_tokens c =
      if c.tn_auth_list_identifiers && not (has_token_validator c.validators)
      then some "Config.TNAuthListIdentifiers needs a tkauth-01 validator"
      else if c.tn_auth_list_certificates_outlive_tokens && not c.tn_auth_list_identifiers
      then some "Config.TNAuthListCertificatesOutliveTokens needs Config.TNAuthListIdentifiers"
      else if c.nf_instance_id_identifiers && not (has_token_validator c.validators)
      then some "Config.NfInstanceIDIdentifiers needs a tkauth-01 validator"
      else if not (c.token_authority == "") && not (is_https_url c.token_authority)
      then some "Config.TokenAuthority must be an absolute https URL"
      else none

  abbrev pub and_then : Option String → Option String → Option String
  and_then (some e) rest = some e
  and_then none rest = rest

  abbrev pub has_no_validator : List (ChallengeType × Bool) → Bool
  has_no_validator [] = true
  has_no_validator (v ∷ vs) = false

  -- The switch at the start of `validate`.
  unfoldable pub check_required : Configured → Option String
  check_required c =
      if not c.has_store
      then some "Config.Store is required"
      else if not c.has_nonces
      then some "Config.Nonces is required"
      else if not c.has_issuer
      then some "Config.Issuer is required"
      else if not c.has_revoker
      then some "Config.Revoker is required"
      else if has_no_validator c.validators
      then some "Config.Validators needs at least one validator"
      else if c.external_account_required && not c.has_external_accounts
      then some "Config.ExternalAccounts is required when Meta.ExternalAccountRequired is set"
      else if c.single_use_external_accounts && not c.has_external_accounts
      then some "Config.SingleUseExternalAccounts needs Config.ExternalAccounts"
      else if c.require_terms_of_service_agreed && c.terms_of_service == ""
      then some "Config.RequireTermsOfServiceAgreed needs Meta.TermsOfService"
      else if has_negative_limit c
      then some "Config limits must not be negative"
      else none

  -- The name of a reason code that a server may allow.
  abbrev pub has_reason_name : ℤ → Bool
  has_reason_name (negsuc n) = false
  has_reason_name (pos n) = leb n 5 || n =? 9 || n =? 10

  -- `validateRevocationReasons`, with strconv.Itoa.
  unfoldable pub validate_revocation_reasons : (ℤ → String) → List ℤ → Option String
  validate_revocation_reasons itoa [] = none
  validate_revocation_reasons itoa (reason ∷ reasons) =
      let rest = validate_revocation_reasons itoa reasons in
      if not (has_reason_name reason)
      then some (
          concat "Config.RevocationReasons has " (
            concat (itoa reason)
              ". Only 0 to 5, 9 and 10 are allowed, because an ACME revocation is final"))
      else rest

  -- `validate`
  unfoldable pub validate : (ℤ → String) → Configured → Option String
  unfolding check_required validate_authority_tokens validate_revocation_reasons validate_profiles
  validate itoa c = and_then (check_required c) (
      and_then (validate_authority_tokens c) (
        and_then (check_validators c.validators) (
          and_then (validate_revocation_reasons itoa c.revocation_reasons)
            (validate_profiles c.profiles c.default_profile))))
