-- ===== src/Tests/Requests.antt =====
-- New orders and challenge responses at a server with an HTTP validator.
use go_acme_server.Prelude.{
  some, ◌≡◌, ◌↔◌, refl, Bool, false, none, [], ◌∷◌, ◌=?◌, length, if◌then◌else◌,
}
use go_acme_server.Exec.{◌>>=◌ as ◌>>=ₛ◌}
use go_acme_server.Table.{get, put, empty, size, string_eq}
use go_acme_server.Status.Order.{OrderStatus}
use go_acme_server.Status.Challenge.{ChallengeStatus, is as challenge_is}
use go_acme_server.Problem.{Identifier, identifier_eq}
use go_acme_server.Resource.{effective_authz_status, Authorization, Challenge, tk_auth01}
use go_acme_server.Memstore.{new_store}
use go_acme_server.Memstore.Checks.{check_challenge, check_new_task, insert_task}
use go_acme_server.Memstore.Authorizations.{authorization}
use go_acme_server.Memstore.Tasks.{account_validations, count}
use go_acme_server.Memstore.Work.{accept_challenge}
use go_acme_server.Nonce.{new_manager}
use go_acme_server.Server.{World, pure, now, call, new_id, new_token, ask_limiter, ◌>>=◌}
use go_acme_server.Prelude.{◌⊎◌}
use go_acme_server.Orders.Methods.{challenge_types_for}
use go_acme_server.Answer.{host_problem, check_limit}
use go_acme_server.Orders.Response.{
  ChallengeResponse, check_challenge_response, authority_token, within_limits, enqueue, responded,
  after_accept, accept,
}
use go_acme_server.Orders.Accepted.{Acceptable, accept-stored, check_challenge_response-none_iff}
use go_acme_server.Orders.Build.{
  trim_wildcard, new_authz, build_challenges, build_authz, build_loop, build_authorizations,
  authz_ids,
}
use go_acme_server.Orders.Built.{CoversAll, build_authorizations-CoversAll}
use go_acme_server.Tests.Data.{alice, an_order, an_authz, a_challenge, a_server, example_com}

abbrev token_response : ChallengeResponse
token_response = record { tk_auth = "t"; atc = "t" }

check_challenge_response-none_iff_example :
    (check_challenge_response tk_auth01 token_response ≡ none) ↔ Acceptable tk_auth01 token_response
check_challenge_response-none_iff_example =
    check_challenge_response-none_iff tk_auth01 token_response

abbrev waiting : Challenge
waiting = record a_challenge { status = ChallengeStatus.pending }

abbrev world : World
world = record {
  store = record new_store {
    authzs = put "z1" an_authz empty;
    challenges = put "h1" waiting empty;
  };
  steps = 0;
  nonces = new_manager 60 2;
}

abbrev no_token : ChallengeResponse
no_token = record { tk_auth = ""; atc = "" }

abbrev accepted_challenge : Challenge
accepted_challenge = record waiting { status = ChallengeStatus.processing; revision = 2 }

accept-stored_example :
    (challenge_is ChallengeStatus.processing ChallengeStatus.pending ≡ false)
    × ((accepted_challenge ≡ waiting)
        ⊎ (get waiting.id (accept a_server waiting alice no_token world).1.store.challenges
            ≡ some accepted_challenge))
unfolding accept check_challenge_response authority_token within_limits enqueue responded
    after_accept check_limit host_problem call now new_id ask_limiter pure ◌>>=◌ authorization
    account_validations count accept_challenge check_challenge check_new_task insert_task ◌>>=ₛ◌
    effective_authz_status get put
accept-stored_example = accept-stored a_server waiting alice no_token world accepted_challenge refl

abbrev built_authz : Authorization
built_authz = record an_authz { id = "x1"; challenge_ids = "x1" ∷ []; revision = 0 }

abbrev built_challenge : Challenge
built_challenge = record waiting {
  id = "x1";
  authorization_id = "x1";
  token = "y1";
  key_thumbprint = "";
  revision = 0;
}

build_authorizations-CoversAll_example :
    CoversAll a_server an_order empty (example_com ∷ []) (built_authz ∷ []) (built_challenge ∷ [])
    × (("x1" ∷ []) ≡ authz_ids (built_authz ∷ []))
    × (an_order.status ≡ (
        if size {K = Identifier} {V = Bool} empty =? length (example_com ∷ [])
        then OrderStatus.ready
        else an_order.status))
unfolding build_authorizations build_loop build_authz build_challenges new_authz trim_wildcard
    challenge_types_for new_id new_token pure ◌>>=◌ get size
build_authorizations-CoversAll_example =
    build_authorizations-CoversAll a_server an_order
      (record an_order { authorization_ids = "x1" ∷ [] }) empty world (built_authz ∷ [])
      (built_challenge ∷ []) refl
