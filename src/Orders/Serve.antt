-- ===== src/Orders/Serve.antt =====
-- order.go: the handlers, between the request and what is written back. `Wire` stands for the parsers
-- of internal/jws.
use go_acme_server.Prelude.{
  not, ◌||◌, String, ◌==◌, Option, none, some, List, [], ◌∷◌, if◌then◌else◌, concat,
}
use go_acme_server.Exec.{Result, ok, err}
use go_acme_server.Status.Order.{OrderStatus, is as order_is}
use go_acme_server.Problem.{Problem, new_problem, malformed, unauthorized, server_internal}
use go_acme_server.Resource.{Time, Bytes, Account, Order, Authorization, Challenge}
use go_acme_server.Memstore.Orders.{order, create_order}
use go_acme_server.Memstore.Authorizations.{authorization, challenge}
use go_acme_server.Worker.Orders.{derive_order_status}
use go_acme_server.Server.{Server, Run, pure, now, call, on, ◌>>=◌}
use go_acme_server.Answer.{Answer, accepted, refused, then_with, unless, store_problem}
use go_acme_server.Requests.{account_mode, Parsed, Request, Signed, read_signed_request}
use go_acme_server.Wire.{
  Payload, decode_payload, is_empty_payload, require_empty_payload, OrderView, order_view,
  AuthorizationView, authorization_view, ChallengeView, challenge_view,
}
use go_acme_server.Renewal.{replacement_problem}
use go_acme_server.Orders.Build.{creation_failed, build_authorizations}
use go_acme_server.Orders.New.{NewOrder, build_order, pre_approve}
use go_acme_server.Orders.Deactivate.{deactivate_authorization}
use go_acme_server.Orders.Response.{ChallengeResponse, accept}

pub record Wire : Type 0 where
  -- jws.Algorithms and jws.Parse.
  pub algorithms : List String
  pub parse : Bytes → Parsed
  -- jws.UnmarshalStrict, for each type of payload; an authorization update is its status.
  pub new_order : Bytes → Payload NewOrder
  pub authorization_update : Bytes → Payload String
  pub challenge_response : Bytes → Payload ChallengeResponse
  -- A finalization is its CSR.
  pub finalize : Bytes → Payload String

-- A request that names its account always comes with one; the code reads a nil pointer otherwise.
abbrev pub nil_account : Problem
nil_account = new_problem server_internal "nil account"

abbrev pub account_of : Option Account → Answer Account
account_of none = refused nil_account
account_of (some account) = accepted account

module _ (s : Server) (wire : Wire) where
  -- `readSignedRequest` with `keyModeAccount`, and its account.
  unfoldable pub read_account_request : Request → String → Run (Answer (Signed × Account))
  unfolding read_signed_request
  read_account_request r rel = do
    received ← read_signed_request s wire.algorithms wire.parse r rel account_mode
    then_with received.answer
        λ signed. then_with (account_of signed.account) λ account. pure (accepted (signed, account))

  -- What the store made of the new order.
  unfoldable pub after_create :
      Order → Time → Result (Order × List Authorization × List Challenge) → Answer OrderView
  unfolding order_view
  after_create o at (ok (created, authzs, challenges)) = accepted (order_view s created at)
  after_create o at (err e) = elim (replacement_problem e) [
    | some p ↦ if not (o.replaces == "") then refused p else refused creation_failed
    | none ↦ refused creation_failed
  ]

  -- `serveNewOrder`, after its payload is decoded.
  unfoldable pub place_order : Account → NewOrder → Run (Answer OrderView)
  unfolding build_order pre_approve build_authorizations create_order after_create
  place_order account payload = do
    at ← now s
    built ← build_order s account payload at
    then_with built λ o. do
      approved ← pre_approve s account o
      then_with approved λ granted. do
        made ← build_authorizations s o granted
        then_with made λ (o', authzs, challenges). do
          stored ← call s (λ c. create_order c o' authzs challenges)
          pure (after_create o' at stored)

  unfoldable pub serve_new_order : Request → Run (Answer OrderView)
  unfolding read_account_request decode_payload place_order
  serve_new_order r = do
    read ← read_account_request r "new-order"
    then_with read λ (signed, account).
        then_with (decode_payload (wire.new_order signed.payload))
          λ payload. place_order account payload

  -- The order with the status that its authorizations imply.
  unfoldable pub refreshed : Order → Run (Answer Order)
  unfolding derive_order_status
  refreshed o =
      if not (order_is o.status OrderStatus.pending || order_is o.status OrderStatus.ready)
      then pure (accepted o)
      else do
        derived ← derive_order_status s o none
        on derived (λ e. pure (refused (store_problem e "authorization")))
            λ status. pure (accepted (record o { status = status }))

  -- An order that the account owns.
  unfoldable pub owned_order : Account → String → Run (Answer Order)
  unfolding refreshed
  owned_order account id = do
    found ← call s (λ c. order c id)
    on found (λ e. pure (refused (store_problem e "order")))
        λ o.
          if not (o.account_id == account.id)
          then pure
              (refused (new_problem unauthorized "the signing account does not own this order"))
          else refreshed o

  -- `readOwnedOrder`
  unfoldable pub read_owned_order :
      Request → String → String → Run (Answer (Signed × Account × Order))
  unfolding read_account_request owned_order
  read_owned_order r id rel = do
    read ← read_account_request r rel
    then_with read λ (signed, account). do
      owned ← owned_order account id
      then_with owned λ o. pure (accepted (signed, account, o))

  unfoldable pub serve_order : Request → String → Run (Answer OrderView)
  unfolding read_owned_order require_empty_payload order_view
  serve_order r id = do
    read ← read_owned_order r id (concat "order/" id)
    then_with read λ (signed, account, o).
        unless (require_empty_payload signed) do at ← now s; pure (accepted (order_view s o at))

  unfoldable pub load_challenges : List String → Run (Answer (List Challenge))
  load_challenges [] = pure (accepted [])
  load_challenges (id ∷ ids) = do
    found ← call s (λ c. challenge c id)
    on found (λ e. pure (refused (new_problem server_internal "challenge lookup failed")))
        λ ch. do rest ← load_challenges ids; then_with rest λ chs. pure (accepted (ch ∷ chs))

  -- The update of an authorization, where the request carries one.
  unfoldable pub update_authz : Bytes → Authorization → Time → Run (Answer Authorization)
  unfolding decode_payload deactivate_authorization
  update_authz body authz at =
      if is_empty_payload body
      then pure (accepted authz)
      else then_with (decode_payload (wire.authorization_update body)) λ status.
        if not (status == "deactivated")
        then pure (refused (new_problem malformed "status can only be changed to deactivated"))
        else deactivate_authorization s authz at

  -- `serveAuthorization`, after the request is read.
  unfoldable pub show_authorization : Account → Bytes → String → Run (Answer AuthorizationView)
  unfolding update_authz load_challenges authorization_view
  show_authorization account body id = do
    found ← call s (λ c. authorization c id)
    on found (λ e. pure (refused (store_problem e "authorization")))
        λ authz.
          if not (authz.account_id == account.id)
          then pure (
              refused
                (new_problem unauthorized "the signing account does not own this authorization"))
          else do
            at ← now s
            updated ← update_authz body authz at
            then_with updated λ authz'. do
              loaded ← load_challenges authz'.challenge_ids
              then_with loaded
                  λ challenges. pure (accepted (authorization_view s authz' challenges at))

  unfoldable pub serve_authorization : Request → String → Run (Answer AuthorizationView)
  unfolding read_account_request show_authorization
  serve_authorization r id = do
    read ← read_account_request r (concat "authz/" id)
    then_with read λ (signed, account). show_authorization account signed.payload id

  -- `serveChallenge`, after the request is read.
  unfoldable pub respond : Account → Bytes → String → Run (Answer ChallengeView)
  unfolding accept decode_payload challenge_view
  respond account body id = do
    found ← call s (λ c. challenge c id)
    on found (λ e. pure (refused (store_problem e "challenge")))
        λ ch.
          if not (ch.account_id == account.id)
          then pure
              (refused (new_problem unauthorized "the signing account does not own this challenge"))
          else if is_empty_payload body
          then pure (accepted (challenge_view s ch))
          else then_with (decode_payload (wire.challenge_response body)) λ payload. do
            answer ← accept s ch account payload
            then_with answer λ ch'. pure (accepted (challenge_view s ch'))

  unfoldable pub serve_challenge : Request → String → Run (Answer ChallengeView)
  unfolding read_account_request respond
  serve_challenge r id = do
    read ← read_account_request r (concat "chall/" id)
    then_with read λ (signed, account). respond account signed.payload id
