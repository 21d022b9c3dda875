-- ===== src/Requests.antt =====
-- request.go: what a signed request has to pass. The HTTP request is what the code reads of it, and
-- `parsed` and `verify` stand for the parser and the signature check of internal/jws.
pub mod Authentic
use Prim.Native.String.{len, slice}
use text.Mathlib.Text.{starts_with}
use go_acme_server.Prelude.{
  ℕ, Bool, true, false, not, ◌&&◌, ◌||◌, String, ◌==◌, Option, none, some, List, [], ◌∷◌, leb, ltb,
  ◌=?◌, length, if◌then◌else◌, concat,
}
use go_acme_server.Text.{all_chars}
use go_acme_server.Status.Account.{AccountStatus, is as account_is, text as status_text}
use go_acme_server.Problem.{
  Problem, new_problem, with_status, malformed, bad_nonce, bad_signature_algorithm, bad_public_key,
  unauthorized, server_internal, account_does_not_exist, with_algorithms,
}
use go_acme_server.Exec.{StoreError, not_found}
use go_acme_server.Resource.{Account, Bytes}
use go_acme_server.Memstore.Accounts.{account}
use go_acme_server.Nonce.{Consumed, consumed, context_error}
use go_acme_server.Server.{Server, Run, pure, call, on, consume_nonce, ◌>>=◌}
use go_acme_server.Answer.{Answer, accepted, refused, then_with}

pub data KeyMode : Type 0 where
  -- kid, jwk, or one of them.
  account_mode embedded_mode either_mode : KeyMode

-- The codes of jws.Error; `no_code` is an error that is none.
pub data JwsCode : Type 0 where
  code_bad_nonce code_bad_signature_algorithm code_bad_public_key code_bad_signature : JwsCode
  code_malformed code_other no_code : JwsCode

pub record JwsError : Type 0 where
  pub code : JwsCode
  pub detail : String

-- A parsed JWS: its header, its payload, and the answer of `Verify` under a key.
pub record Message : Type 0 where
  pub nonce : String
  pub url : String
  pub key : Option Bytes
  pub key_id : String
  pub payload : Bytes
  pub verify : Bytes → Option JwsError

pub data Parsed : Type 0 where
  message : Message → Parsed
  bad_message : JwsError → Parsed

pub data Body : Type 0 where
  no_body unreadable : Body
  bytes : Bytes → Body

pub record Request : Type 0 where
  -- The media type of Content-Type, where it could be parsed.
  pub media_type : Option String
  pub body : Body
  pub raw_query : String
  pub force_query : Bool
  pub escaped_path : String

-- `signedRequest`.
pub record Signed : Type 0 where
  pub account : Option Account
  pub key : Bytes
  pub payload : Bytes

-- Whether the request spent a valid nonce, and what was made of it.
pub record Received : Type 0 where
  pub nonce_spent : Bool
  pub answer : Answer Signed

-- `jws.Algorithms`, as the host of the parser lists them.
unfoldable pub problem_from_jws : List String → JwsError → Problem
problem_from_jws algorithms e = elim e.code [
  | code_bad_nonce ↦ new_problem bad_nonce e.detail
  | code_bad_signature_algorithm ↦
      with_algorithms algorithms (new_problem bad_signature_algorithm e.detail)
  | code_bad_public_key ↦ new_problem bad_public_key e.detail
  | code_bad_signature ↦ new_problem unauthorized e.detail
  | code_malformed ↦ new_problem malformed e.detail
  | code_other ↦ new_problem malformed e.detail
  | no_code ↦ new_problem malformed "invalid JWS"
]

abbrev pub is_id_char : ℕ → Bool
is_id_char n =
    leb 65 n && leb n 90 || leb 97 n && leb n 122 || leb 48 n && leb n 57 || n =? 45 || n =? 95

-- `validID`
unfoldable pub valid_id : String → Bool
valid_id s = not (s == "") && not (ltb 64 (len s)) && all_chars is_id_char s

abbrev pub is_account_mode : KeyMode → Bool
is_account_mode account_mode = true
is_account_mode _ = false

abbrev pub is_embedded_mode : KeyMode → Bool
is_embedded_mode embedded_mode = true
is_embedded_mode _ = false

abbrev pub lookup_problem : StoreError → Problem
lookup_problem not_found = new_problem account_does_not_exist "account does not exist"
lookup_problem _ = new_problem server_internal "account lookup failed"

module _ (s : Server) (algorithms : List String) (parse : Bytes → Parsed) where
  abbrev pub resource_url : String → String
  resource_url rel = concat s.config.base_url rel

  -- `accountIDFromURL`
  unfoldable pub account_id_from_url : String → Option String
  unfolding valid_id
  account_id_from_url u =
      let prefix = resource_url "acct/" in
      let id = slice u (len prefix) (len u) in
      if not (starts_with u prefix) || not (valid_id id) then none else some id

  -- `readBody`
  unfoldable pub read_body : Body → Answer Bytes
  read_body no_body = refused (new_problem malformed "request has no body")
  read_body unreadable = refused (new_problem malformed "request body could not be read")
  read_body (bytes b) =
      if ltb s.config.max_body (length b)
      then refused (
          with_status 413 (
            new_problem malformed
              (concat "request body exceeds " (concat (s.decimal s.config.max_body) " bytes"))))
      else accepted b

  -- `lookupAccount`
  unfoldable pub lookup_account : String → Run (Answer Account)
  unfolding account_id_from_url
  lookup_account kid = elim (account_id_from_url kid) [
    | none ↦ pure (refused (new_problem malformed "JWS kid is not an account URL of this server"))
    | some id ↦ do
      found ← call s (λ c. account c id)
      on found (λ e. pure (refused (lookup_problem e)))
          λ a.
            if not (account_is a.status AccountStatus.valid)
            then pure
                (refused (new_problem unauthorized (concat "account is " (status_text a.status))))
            else pure (accepted a)
  ]

  -- The signature is checked last, under the key that was found.
  unfoldable pub verified : Message → Option Account → Bytes → Answer Signed
  unfolding problem_from_jws
  verified m account key = elim (m.verify key) [
    | some e ↦ refused (problem_from_jws algorithms e)
    | none ↦ accepted (record { account = account; key = key; payload = m.payload })
  ]

  -- The key that the header names, and the signature.
  unfoldable pub authenticate : KeyMode → Message → Run (Answer Signed)
  unfolding verified lookup_account
  authenticate mode m = elim m.key [
    | some key ↦
        if is_account_mode mode
        then pure
            (refused (new_problem malformed "this resource requires kid, not an embedded jwk"))
        else pure (verified m none key)
    | none ↦
        if is_embedded_mode mode
        then pure
            (refused (new_problem malformed "this resource requires an embedded jwk, not kid"))
        else do
          found ← lookup_account m.key_id
          then_with found λ a. pure (verified m (some a) a.key)
  ]

  abbrev pub expected_url : Request → String → String
  expected_url r rel =
      if not (r.raw_query == "") || r.force_query
      then concat (resource_url rel) (concat "?" r.raw_query)
      else resource_url rel

  abbrev pub bad_nonce_problem : Problem
  bad_nonce_problem =
      new_problem bad_nonce
        "JWS has an invalid anti-replay nonce: it is unknown, expired or was already used"

  -- What follows the nonce.
  unfoldable pub after_nonce : Request → String → KeyMode → Message → Run (Answer Signed)
  unfolding authenticate
  after_nonce r rel mode m =
      if not (m.url == expected_url r rel) || not (r.escaped_path == concat s.config.base_path rel)
      then pure (refused (new_problem unauthorized "JWS url does not match the request URL"))
      else authenticate mode m

  abbrev pub unspent : Problem → Received
  unspent p = record { nonce_spent = false; answer = refused p }

  -- A message that was parsed spends its nonce before anything else is checked.
  unfoldable pub read_message : Request → String → KeyMode → Message → Run Received
  unfolding after_nonce
  read_message r rel mode m = do
    spent ← consume_nonce s m.nonce
    elim spent [
      | context_error e ↦ pure (unspent (new_problem server_internal "nonce lookup failed"))
      | consumed false ↦ pure (unspent bad_nonce_problem)
      | consumed true ↦ do
        answer ← after_nonce r rel mode m
        pure (record { nonce_spent = true; answer = answer })
    ]

  abbrev pub is_jose : Option String → Bool
  is_jose none = false
  is_jose (some media_type) = media_type == "application/jose+json"

  -- `readSignedRequest`
  unfoldable pub read_signed_request : Request → String → KeyMode → Run Received
  unfolding read_body read_message problem_from_jws
  read_signed_request r rel mode =
      if not (is_jose r.media_type)
      then pure (
          unspent
            (with_status 415 (new_problem malformed "Content-Type must be application/jose+json")))
      else elim (read_body r.body) [
        | refused p ↦ pure (unspent p)
        | accepted body ↦ elim (parse body) [
          | bad_message e ↦ pure (unspent (problem_from_jws algorithms e))
          | message m ↦ read_message r rel mode m
        ]
      ]
