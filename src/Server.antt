-- ===== src/Server.antt =====
-- server.go, config.go, issuer.go: what the server's operations share. A step of the server is a
-- function of the store and of a count of the steps made so far. Around each call of the store
-- other requests and workers may change it: `interfere n` is what they do before step `n`. The
-- clock, the contexts and the host's validators answer by the step too, so that nothing is assumed
-- of two answers in a row.
use go_acme_server.Prelude.{ℕ, suc, Bool, true, false, String, Option, none, some, List}
use go_acme_server.Exec.{Ctx, Exec, Result, ok, err, StoreError, not_found, revision_mismatch}
use go_acme_server.Problem.{Identifier, Problem}
use go_acme_server.Resource.{Account, Order, Challenge, ChallengeType, Time, Bytes}
use go_acme_server.Platform.{Platform}
use go_acme_server.Nonce.{Manager, Consumed, consume}
use go_acme_server.Memstore.{Store}

pub record ValidationRequest : Type 0 where
  pub challenge : Challenge
  pub identifier : Identifier
  pub wildcard : Bool
  pub key_authorization : String
  pub account_key_thumbprint : String
  pub authority_token : String

pub record ValidationGrant : Type 0 where
  pub ca_certificate : Bool
  pub expires : Time
  pub names : List Identifier
  pub nf_type : String

-- An error of a host interface, as the server takes it apart: `AsProblem` finds a problem in it,
-- or it is a `RetryableError` with a problem, or neither.
pub data HostError : Type 0 where
  final : Problem → HostError
  retryable : Problem → HostError
  failure : HostError

pub data Validated : Type 0 where
  granted : ValidationGrant → Validated
  failed : HostError → Validated

pub data LimitKind : Type 0 where
  limit_new_nonce limit_new_account limit_new_order limit_challenge_response : LimitKind
  limit_renewal_info : LimitKind

-- `Client` is left out.
pub record LimitRequest : Type 0 where
  pub kind : LimitKind
  pub account : Option Account
  pub identifiers : List Identifier
  pub replaces : String
  pub pending_validations : ℕ

-- `WorkerConfig`.
pub record WorkerConfig : Type 0 where
  pub poll_interval : ℕ
  pub task_timeout : ℕ
  pub max_attempts : ℕ
  pub retry_delay : ℕ

-- The settings that the request handlers read, with the defaults applied.
pub record Config : Type 0 where
  pub base_url : String
  pub base_path : String
  pub max_body : ℕ
  pub max_identifiers : ℕ
  pub token_authority : String
  pub ip_identifiers : Bool
  pub tn_auth_lists : Bool
  pub nf_instance_ids : Bool
  pub order_lifetime : ℕ
  pub profiles : List String
  pub default_profile : String
  -- Whether a RenewalAdvisor is configured.
  pub renewal : Bool
  pub revocation_reasons : List ℕ
  pub reasons_text : String
  pub require_tos : Bool
  pub external_account_required : Bool
  pub single_use_eab : Bool

-- `RevokeRequest` without the parsed certificate.
pub record RevokeRequest : Type 0 where
  pub operation_id : String
  pub der : Bytes
  pub reason : ℕ
  pub account_id : String

-- The host's Policy, with the optional extensions that it may have, and its Revoker. What a function
-- is handed a pointer to comes back with its answer.
pub record Host : Type 0 where
  pub new_account : ℕ → Account → Account × Option HostError
  pub new_order : ℕ → Account → Order → Order × Option HostError
  pub profile_chooser : Option (ℕ → Account → String × Option HostError)
  pub pre_approver : Option (ℕ → Account → Order → Order × List Identifier × Option HostError)
  pub revoke : ℕ → RevokeRequest → Option HostError
  -- reflect.DeepEqual on two orders.
  pub deep_equal : Order → Order → Bool

-- The configuration, and what the host and the other requests do at each step.
pub record Server : Type 0 where
  pub workers : WorkerConfig
  pub authz_lifetime : ℕ
  pub max_validations : ℕ
  -- The configured validators, asked through `Server.validate`.
  pub validators : ChallengeType → Option (ℕ → ValidationRequest → Validated)
  pub clock : ℕ → Time
  pub ctx : ℕ → Ctx
  -- The answers of `newID`, none where the random source fails.
  pub ids : ℕ → Option String
  -- The answers of `newToken`.
  pub tokens : ℕ → Option String
  pub limits : Option (ℕ → LimitRequest → Option HostError)
  pub tn_auth_list_outlive : Bool
  -- `%d` of package fmt.
  pub decimal : ℕ → String
  pub interfere : ℕ → Store → Store
  pub interfere_nonces : ℕ → Manager → Manager
  pub platform : Platform
  pub config : Config
  pub host : Host

pub record World : Type 0 where
  pub nonces : Manager
  pub store : Store
  pub steps : ℕ

abbrev pub Run : Type 0 → Type 0
Run A = World → A × World

module _ {A : Type 0} where
  unfoldable pub pure : A → Run A
  pure a w = (a, w)

module _ {A B : Type 0} where
  infixl 5 ◌>>=◌ ◌>>◌
  unfoldable pub ◌>>=◌ : Run A → (A → Run B) → Run B
  unfolding pure
  ◌>>=◌ m f w = let (a, w') = m w in f a w'

  abbrev pub ◌>>◌ : Run A → Run B → Run B
  m >> n = m >>= λ _. n

  -- `if err != nil { … }`
  abbrev pub on : Result A → (StoreError → Run B) → (A → Run B) → Run B
  on (ok a) fail go = go a
  on (err e) fail go = fail e

-- `errors.Is(err, ErrNotFound)` and `errors.Is(err, ErrRevisionMismatch)`.
abbrev pub is_not_found : StoreError → Bool
is_not_found not_found = true
is_not_found _ = false

abbrev pub is_mismatch : StoreError → Bool
is_mismatch revision_mismatch = true
is_mismatch _ = false

module _ (s : Server) where
  -- `s.clock.Now()`
  unfoldable pub now : Run Time
  now w = (s.clock w.steps, record w { store = s.interfere w.steps w.store; steps = suc w.steps })

  -- A call of the store, after what the others did to it.
  unfoldable pub call : {A : Type 0} → (Ctx → Exec Store A) → Run (Result A)
  call m w =
      let (r, store) = m (s.ctx w.steps) (s.interfere w.steps w.store) in
      (r, record w { store = store; steps = suc w.steps })

  -- A call of a validator under its own timeout.
  unfoldable pub ask : (ℕ → ValidationRequest → Validated) → ValidationRequest → Run Validated
  ask validator req w =
      (validator w.steps req, record w { store = s.interfere w.steps w.store; steps = suc w.steps })

  unfoldable pub new_id : Run (Option String)
  new_id w = (s.ids w.steps, record w { store = s.interfere w.steps w.store; steps = suc w.steps })

  unfoldable pub new_token : Run (Option String)
  new_token w =
      (s.tokens w.steps, record w { store = s.interfere w.steps w.store; steps = suc w.steps })

  unfoldable pub ask_limiter :
      Option (ℕ → LimitRequest → Option HostError) → LimitRequest → Run (Option HostError)
  ask_limiter none req w = (none, w)
  ask_limiter (some limiter) req w =
      (limiter w.steps req, record w { store = s.interfere w.steps w.store; steps = suc w.steps })

  -- A call of the host, which answers by the step.
  unfoldable pub ask_host : {A : Type 0} → (ℕ → A) → Run A
  ask_host answer w =
      (answer w.steps, record w { store = s.interfere w.steps w.store; steps = suc w.steps })

  -- `s.nonces.Consume`, after what other requests did with their nonces.
  unfoldable pub consume_nonce : String → Run Consumed
  consume_nonce value w =
      let (r, nonces) =
        consume (s.ctx w.steps) (s.interfere_nonces w.steps w.nonces) value (s.clock w.steps) in
      (r, record w { nonces = nonces; store = s.interfere w.steps w.store; steps = suc w.steps })
