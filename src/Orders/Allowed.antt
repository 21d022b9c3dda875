-- ===== src/Orders/Allowed.antt =====
-- order.go: the offered challenge types against a table of the methods per identifier.
use go_acme_server.Prelude.{
  ◌≡◌, String, is_some, List, [], ◌∷◌, arith, Bool-cases, if◌then◌else◌, inl, inr,
}
use go_acme_server.Problem.{
  IdentifierType, dns, ip, tn_auth_list, nf_instance_id, uri, other, Identifier, is_wildcard,
}
use go_acme_server.Resource.{ChallengeType, http01, dns01, tls_alpn01, tk_auth01}
use go_acme_server.Server.{Server}
use go_acme_server.Orders.Methods.{challenge_types_for}

-- The methods for a type of identifier, the name without a wildcard.
abbrev pub methods : IdentifierType → List ChallengeType
methods ip = http01 ∷ tls_alpn01 ∷ []
methods tn_auth_list = tk_auth01 ∷ []
methods nf_instance_id = tk_auth01 ∷ []
methods _ = http01 ∷ dns01 ∷ tls_alpn01 ∷ []

abbrev pub allowed : Identifier → List ChallengeType
allowed id = if is_wildcard id then dns01 ∷ [] else methods id.kind

abbrev pub configured : Server → List ChallengeType → List ChallengeType
configured s [] = []
configured s (kind ∷ kinds) =
    if is_some (s.validators kind) then kind ∷ configured s kinds else configured s kinds

by_kind :
    (s : Server) (k : IdentifierType) (v : String)
    → challenge_types_for s (record { kind = k; value = v })
      ≡ configured s (allowed (record { kind = k; value = v }))
unfolding challenge_types_for
by_kind s dns v = elim (Bool-cases (is_wildcard (record { kind = dns; value = v }))) [
  | inl w ↦ ground arith
  | inr w ↦ ground arith
]
by_kind s ip v = ground arith
by_kind s tn_auth_list v = ground arith
by_kind s nf_instance_id v = ground arith
by_kind s uri v = ground arith
by_kind s (other k) v = ground arith

-- An identifier is offered the methods that the table allows for it and that have a validator, in
-- the order of the table: dns-01 alone for a wildcard name.
pub challenge_types_for-allowed :
    (s : Server) (id : Identifier) → challenge_types_for s id ≡ configured s (allowed id)
challenge_types_for-allowed s id = by_kind s id.kind id.value
