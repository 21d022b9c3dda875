-- ===== src/Accounts/Binding.antt =====
-- eab.go: the binding of an account to an external one. What internal/jws makes of a binding is a
-- parameter, and so are the MAC keys of the host.
use Prim.Native.String.{len}
use go_acme_server.Prelude.{
  ℕ, Bool, true, false, not, String, ◌==◌, Option, none, some, List, [], ◌∷◌, ltb, length,
  if◌then◌else◌, concat,
}
use go_acme_server.Problem.{
  Problem, new_problem, with_algorithms, malformed, unauthorized, bad_signature_algorithm,
}
use go_acme_server.Resource.{Bytes}
use go_acme_server.Server.{Server, Run, HostError, ask_host, pure, ◌>>=◌}
use go_acme_server.Answer.{Answer, accepted, refused, host_problem}
use go_acme_server.Requests.{JwsCode, code_bad_signature_algorithm, JwsError}
use go_acme_server.Wire.{url_of}
use go_acme_server.Accounts.KeyChange.{ParsedKey, parsed_key, bad_key, detail_of}

-- A JWS with a MAC: its header, its payload and the answer of `VerifyMAC` under a key.
pub record Mac : Type 0 where
  pub url : String
  pub key_id : String
  pub payload : Bytes
  pub verify : Bytes → Option JwsError

pub data ParsedMac : Type 0 where
  mac : Mac → ParsedMac
  bad_mac : JwsError → ParsedMac

-- What the host's `MACKey` answers.
pub data MacKey : Type 0 where
  mac_key : Bytes → MacKey
  unknown_key : MacKey
  key_error : HostError → MacKey

-- `jws`, and `Config.ExternalAccounts` where the host sets it.
pub record Bindings : Type 0 where
  pub parse_mac : Bytes → ParsedMac
  pub parse_jwk : Bytes → ParsedKey
  pub thumbprint : Bytes → Option String
  -- jws.MACAlgorithms, and those that a key of a length allows.
  pub mac_algorithms : List String
  pub algorithms_for : ℕ → List String
  pub keys : Option (ℕ → String → MacKey)

abbrev pub is_bad_algorithm : JwsCode → Bool
is_bad_algorithm code_bad_signature_algorithm = true
is_bad_algorithm _ = false

module _ (s : Server) (b : Bindings) where
  -- `shortMACKeyProblem`
  unfoldable pub short_mac_key_problem : Bytes → JwsError → Problem
  short_mac_key_problem key cause = elim (b.algorithms_for (length key)) [
    | [] ↦
        new_problem unauthorized
          "external account key is too short for any HMAC algorithm. Ask the server operator for a new key"
    | name ∷ names ↦
        with_algorithms (name ∷ names)
          (new_problem bad_signature_algorithm (concat "externalAccountBinding: " cause.detail))
  ]

  -- The problem of a binding that does not parse.
  unfoldable pub parse_problem : JwsError → Problem
  parse_problem e =
      if is_bad_algorithm e.code
      then with_algorithms b.mac_algorithms (new_problem bad_signature_algorithm e.detail)
      else new_problem malformed (concat "externalAccountBinding: " (detail_of e))

  -- The problem of a MAC that does not verify.
  unfoldable pub mac_problem : Bytes → JwsError → Problem
  unfolding short_mac_key_problem
  mac_problem key e =
      if is_bad_algorithm e.code
      then short_mac_key_problem key e
      else new_problem unauthorized "externalAccountBinding signature verification failed"

  -- The payload is the account key.
  unfoldable pub check_bound_key : String → Mac → Answer String
  check_bound_key thumbprint m =
      let other = new_problem malformed "externalAccountBinding payload is not the account key" in
      elim (b.parse_jwk m.payload) [
        | bad_key e ↦ refused (new_problem malformed (concat "externalAccountBinding payload: " e))
        | parsed_key key ↦ elim (b.thumbprint key) [
          | none ↦ refused other
          | some bound ↦ if not (bound == thumbprint) then refused other else accepted m.key_id
        ]
      ]

  -- What follows the lookup of the MAC key.
  unfoldable pub check_mac : String → Mac → MacKey → Answer String
  unfolding mac_problem check_bound_key host_problem
  check_mac thumbprint m unknown_key =
      refused (new_problem unauthorized "external account key is unknown")
  check_mac thumbprint m (key_error e) =
      elim (host_problem (some e) "external account key lookup") [
        | some p ↦ refused p
        | none ↦ check_bound_key thumbprint m
      ]
  check_mac thumbprint m (mac_key key) = elim (m.verify key) [
    | some e ↦ refused (mac_problem key e)
    | none ↦ check_bound_key thumbprint m
  ]

  -- The checks of the header, and the lookup.
  unfoldable pub check_binding : (ℕ → String → MacKey) → String → Mac → Run (Answer String)
  unfolding check_mac
  check_binding keys thumbprint m =
      if not (m.url == url_of s "new-account")
      then pure (
          refused
            (new_problem malformed "externalAccountBinding url does not match the request URL"))
      else if ltb 256 (len m.key_id)
      then pure (refused (new_problem malformed "externalAccountBinding kid exceeds 256 bytes"))
      else do answer ← ask_host s (λ n. keys n m.key_id); pure (check_mac thumbprint m answer)

  -- `verifyExternalAccountBinding`
  unfoldable pub verify_binding : String → Bytes → Run (Answer String)
  unfolding parse_problem check_binding
  verify_binding thumbprint raw = elim b.keys [
    | none ↦ pure (refused (new_problem malformed "external account bindings are not accepted"))
    | some keys ↦ elim (b.parse_mac raw) [
      | bad_mac e ↦ pure (refused (parse_problem e))
      | mac m ↦ check_binding keys thumbprint m
    ]
  ]
