-- ===== src/Orders/Methods.antt =====
-- order.go: the challenge types that may validate an identifier.
use go_acme_server.Prelude.{
  ℕ, ◌+◌, Bool, true, false, not, ◌&&◌, ◌||◌, is_some, List, [], ◌∷◌, if◌then◌else◌,
}
use go_acme_server.Problem.{
  IdentifierType, ip, tn_auth_list, nf_instance_id, is_type, Identifier, is_wildcard,
}
use go_acme_server.Resource.{ChallengeType, http01, dns01, tls_alpn01, tk_auth01}
use go_acme_server.Server.{Server}

abbrev pub is_tk_auth01 : ChallengeType → Bool
is_tk_auth01 tk_auth01 = true
is_tk_auth01 _ = false

abbrev pub is_dns01 : ChallengeType → Bool
is_dns01 dns01 = true
is_dns01 _ = false

unfoldable pub count_identifiers : List Identifier → IdentifierType → ℕ
count_identifiers [] kind = 0
count_identifiers (id ∷ ids) kind =
    let rest = count_identifiers ids kind in if is_type id.kind kind then rest + 1 else rest

-- Only TNAuthList and NfInstanceId identifiers take an authority token.
abbrev pub takes_token : Identifier → Bool
takes_token id = is_type id.kind tn_auth_list || is_type id.kind nf_instance_id

module _ (s : Server) where
  -- The tests of one round of the loop.
  abbrev pub offers : Identifier → ChallengeType → Bool
  offers id kind =
      is_some (s.validators kind)
      && (if takes_token id then is_tk_auth01 kind else not (is_tk_auth01 kind))
      && not (is_wildcard id && not (is_dns01 kind))
      && not (is_type id.kind ip && is_dns01 kind)

  abbrev pub select_types : Identifier → List ChallengeType → List ChallengeType
  select_types id [] = []
  select_types id (kind ∷ kinds) =
      let rest = select_types id kinds in if offers id kind then kind ∷ rest else rest

  unfoldable pub challenge_types_for : Identifier → List ChallengeType
  challenge_types_for id = select_types id (http01 ∷ dns01 ∷ tls_alpn01 ∷ tk_auth01 ∷ [])
