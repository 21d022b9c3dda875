-- ===== src/Orders/Build.antt =====
-- order.go: the authorizations and challenges of a new order.
use Prim.Native.String.{len, slice}
use text.Mathlib.Text.{starts_with}
use go_acme_server.Prelude.{
  Bool, true, false, String, Option, none, some, List, [], ◌∷◌, ◌++◌, ◌=?◌, length, if◌then◌else◌,
}
use go_acme_server.Table.{Table, get, size}
use go_acme_server.Status.Order.{OrderStatus}
use go_acme_server.Status.Authorization.{AuthorizationStatus}
use go_acme_server.Status.Challenge.{ChallengeStatus}
use go_acme_server.Problem.{
  Identifier, identifier_eq, is_wildcard, Problem, new_problem, server_internal,
}
use go_acme_server.Resource.{ChallengeType, Order, Authorization, Challenge}
use go_acme_server.Server.{Server, Run, pure, new_id, new_token, ◌>>=◌}
use go_acme_server.Orders.Methods.{challenge_types_for}
use go_acme_server.Answer.{Answer, accepted, refused, then_with}

-- `strings.TrimPrefix(value, "*.")`
unfoldable pub trim_wildcard : String → String
trim_wildcard value = if starts_with value "*." then slice value 2 (len value) else value

-- `preApproved[id]`, false where the key is missing.
abbrev pub is_granted : Table Identifier Bool → Identifier → Bool
is_granted table id = elim (get id table) [ none ↦ false | some b ↦ b ]

abbrev pub creation_failed : Problem
creation_failed = new_problem server_internal "order creation failed"

abbrev pub or_fail : {A B : Type 0} → Option A → (A → Run (Answer B)) → Run (Answer B)
or_fail none go = pure (refused creation_failed)
or_fail (some a) go = go a

-- A pending authorization without challenges, for an identifier of the order.
unfoldable pub new_authz : Order → String → Identifier → Authorization
unfolding trim_wildcard
new_authz order authz_id id = record {
  id = authz_id;
  account_id = order.account_id;
  order_id = order.id;
  identifier = if is_wildcard id then record id { value = trim_wildcard id.value } else id;
  status = AuthorizationStatus.pending;
  expires = order.expires;
  wildcard = is_wildcard id;
  challenge_ids = [];
  ca_certificate = false;
  grant_expires = 0;
  grant_names = [];
  grant_nf_type = "";
  pre_approved = false;
  created_at = order.created_at;
  revision = 0;
}

abbrev pub new_challenge : Order → String → String → String → ChallengeType → Challenge
new_challenge order authz_id challenge_id token kind = record {
  id = challenge_id;
  authorization_id = authz_id;
  account_id = order.account_id;
  kind = kind;
  status = ChallengeStatus.pending;
  token = token;
  authority_token = "";
  key_thumbprint = "";
  validated = 0;
  error = none;
  revision = 0;
}

abbrev pub ids_of : List Challenge → List String
ids_of [] = []
ids_of (c ∷ cs) = c.id ∷ ids_of cs

abbrev pub authz_ids : List Authorization → List String
authz_ids [] = []
authz_ids (a ∷ more) = a.id ∷ authz_ids more

module _ (s : Server) where
  -- One challenge per type.
  unfoldable pub build_challenges :
      Order → String → List ChallengeType → Run (Answer (List Challenge))
  build_challenges order authz_id [] = pure (accepted [])
  build_challenges order authz_id (kind ∷ kinds) = do
    challenge_id ← new_id s
    or_fail challenge_id λ id. do
      token ← new_token s
      or_fail token λ t. do
        rest ← build_challenges order authz_id kinds
        then_with rest λ cs. pure (accepted (new_challenge order authz_id id t kind ∷ cs))

  -- The authorization of one identifier with its challenges.
  unfoldable pub build_authz :
      Order → Table Identifier Bool → Identifier → Run (Answer (Authorization × List Challenge))
  unfolding build_challenges new_authz challenge_types_for
  build_authz order granted id = do
    authz_id ← new_id s
    or_fail authz_id λ new. do
      let authz = new_authz order new id
      if is_granted granted id
          then pure (
              accepted
                (record authz { status = AuthorizationStatus.valid; pre_approved = true }, []))
          else do
            built ← build_challenges order new (challenge_types_for s id)
            then_with built λ cs. pure (accepted (record authz { challenge_ids = ids_of cs }, cs))

  unfoldable pub build_loop :
      Order
      → Table Identifier Bool
      → List Identifier
      → Run (Answer (List Authorization × List Challenge))
  unfolding build_authz
  build_loop order granted [] = pure (accepted ([], []))
  build_loop order granted (id ∷ ids) = do
    built ← build_authz order granted id
    then_with built λ authz. do
      rest ← build_loop order granted ids
      then_with rest λ more. pure (accepted (authz.0 ∷ more.0, authz.1 ++ more.1))

  -- `buildAuthorizations`: the order with its authorizations, which starts ready where no
  -- challenge is needed.
  unfoldable pub build_authorizations :
      Order → Table Identifier Bool → Run (Answer (Order × List Authorization × List Challenge))
  unfolding build_loop
  build_authorizations order granted = do
    built ← build_loop order granted order.identifiers
    then_with built λ made. do
      let with_ids = record order { authorization_ids = authz_ids made.0 }
      pure (
          accepted (
            if size granted =? length order.identifiers
                then record with_ids { status = OrderStatus.ready }
                else with_ids,
            made.0,
            made.1,
          ))
