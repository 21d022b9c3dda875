-- ===== src/Accounts.antt =====
-- account.go: the account requests. The parsers of internal/jws are parameters.
pub mod KeyChange
pub mod Binding
use Prim.Native.String.{len}
use go_acme_server.Prelude.{
  ℕ, suc, Bool, true, false, not, ◌&&◌, ◌||◌, String, ◌==◌, Option, none, some, List, [], ◌∷◌, ltb,
  ◌=?◌, length, if◌then◌else◌, concat,
}
use go_acme_server.Text.{any_char}
use go_acme_server.Exec.{StoreError, conflict, not_found, Result, ok, err}
use go_acme_server.Status.Account.{AccountStatus, is as account_is, text as status_text}
use go_acme_server.Status.Order.{OrderStatus, is as order_is}
use go_acme_server.Problem.{
  Problem, new_problem, malformed, unauthorized, invalid_contact, unsupported_contact,
  bad_public_key, account_does_not_exist, user_action_required, external_account_required,
  server_internal,
}
use go_acme_server.Resource.{Time, Bytes, Account, Order, status_at}
use go_acme_server.Platform.{Platform, Contact}
use go_acme_server.Memstore.Accounts.{account_by_key, create_account}
use go_acme_server.Memstore.Orders.{order, order_ids, take}
use go_acme_server.Server.{
  Server, Run, HostError, LimitRequest, limit_new_account, pure, now, call, new_id, ask_host, on,
  is_not_found, ◌>>=◌,
}
use go_acme_server.Answer.{Answer, accepted, refused, then_with, unless, host_problem, check_limit}
use go_acme_server.Requests.{
  KeyMode, embedded_mode, JwsError, Message, Request, Signed, valid_id, read_signed_request,
  problem_from_jws,
}
use go_acme_server.Wire.{
  Payload, decode_payload, is_empty_payload, require_empty_payload, AccountView, account_view,
  account_url, url_of,
}
use go_acme_server.Orders.Deactivate.{update_owned_account}
use go_acme_server.Accounts.Binding.{Bindings, verify_binding}
use go_acme_server.Orders.Serve.{Wire, read_account_request}

-- `newAccountJSON`; the binding is its bytes.
pub record NewAccount : Type 0 where
  pub contact : List String
  pub terms_of_service_agreed : Bool
  pub only_return_existing : Bool
  pub external_account_binding : Bytes

-- `accountUpdateJSON`
pub record AccountUpdate : Type 0 where
  pub contact : Option (List String)
  pub status : Option String

abbrev pub max_contacts : ℕ
max_contacts = 10

abbrev pub orders_page_size : ℕ
orders_page_size = 100

module _ (p : Platform) where
  -- One contact, as url.Parse and mail.ParseAddress read it.
  unfoldable pub check_contact : String → Option Problem
  check_contact contact = elim (p.parse_contact contact) [
    | none ↦
        some (
          new_problem invalid_contact
            (concat "contact " (concat (p.quote contact) " is not a URL")))
    | some u ↦
        if u.scheme == ""
        then some (
            new_problem invalid_contact
              (concat "contact " (concat (p.quote contact) " is not a URL")))
        else if not (p.equal_fold u.scheme "mailto")
        then some (
            new_problem unsupported_contact
              (concat "contact scheme " (concat (p.quote u.scheme) " is not supported")))
        else if u.opaque == ""
            || not (u.raw_query == "")
            || not (u.fragment == "")
            || any_char (λ n. n =? 44) u.opaque
        then some (
            new_problem invalid_contact (
              concat "contact "
                (concat (p.quote contact) " must be a single mailto address without parameters")))
        else if not (p.is_bare_address u.opaque)
        then some (
            new_problem invalid_contact
              (concat "contact " (concat (p.quote contact) " is not a valid email address")))
        else none
  ]

  unfoldable pub check_contacts : List String → Option Problem
  unfolding check_contact
  check_contacts [] = none
  check_contacts (contact ∷ contacts) =
      let rest = check_contacts contacts in
      elim (check_contact contact) [ some e ↦ some e | none ↦ rest ]

  -- `validateContacts`
  unfoldable pub validate_contacts : List String → Option Problem
  unfolding check_contacts
  validate_contacts contacts =
      if ltb max_contacts (length contacts)
      then some (new_problem malformed "at most 10 contacts are allowed")
      else check_contacts contacts

abbrev pub not_created : Problem
not_created = new_problem server_internal "account creation failed"

abbrev pub is_conflict : StoreError → Bool
is_conflict conflict = true
is_conflict _ = false

module _ (s : Server) (wire : Wire) (keys : Bindings) where
  -- `writeExistingAccount`
  unfoldable pub existing_account : Account → Answer AccountView
  unfolding account_view
  existing_account a =
      if not (account_is a.status AccountStatus.valid)
      then refused (
          new_problem unauthorized
            (concat "the account owning this key is " (status_text a.status)))
      else accepted (account_view s a)

  -- The identity that an external account binding proves, empty where none is given.
  unfoldable pub external_id : String → Bytes → Run (Answer String)
  unfolding verify_binding
  external_id thumbprint binding =
      if is_empty_payload binding
      then if s.config.external_account_required
        then pure (
            refused
              (new_problem external_account_required "an external account binding is required"))
        else pure (accepted "")
      else verify_binding s keys thumbprint binding

  abbrev pub new_account : String → Bytes → String → NewAccount → String → Time → Account
  new_account id key thumbprint payload external at = record {
    id = id;
    status = AccountStatus.valid;
    key = key;
    key_thumbprint = thumbprint;
    contact = payload.contact;
    terms_of_service_agreed = payload.terms_of_service_agreed;
    external_account_id = external;
    external_account_claim = if s.config.single_use_eab then external else "";
    created_at = at;
    revision = 0;
  }

  abbrev pub account_limit : Account → LimitRequest
  account_limit a = record {
    kind = limit_new_account;
    account = some a;
    identifiers = [];
    replaces = "";
    pending_validations = 0;
  }

  -- The limiter and then the policy review the account, which the policy may change.
  unfoldable pub review_account : Account → Run (Answer Account)
  unfolding check_limit host_problem
  review_account a = do
    limited ← check_limit s (account_limit a)
    unless limited do
      answer ← ask_host s (λ n. s.host.new_account n a)
      unless (host_problem answer.1 "account policy") (pure (accepted answer.0))

  -- `buildAccount`
  unfoldable pub build_account : Bytes → String → NewAccount → Run (Answer Account)
  unfolding validate_contacts external_id review_account
  build_account key thumbprint payload = unless (validate_contacts s.platform payload.contact) (
      if s.config.require_tos && not payload.terms_of_service_agreed
      then pure
          (refused (new_problem user_action_required "the terms of service must be agreed to"))
      else do
        bound ← external_id thumbprint payload.external_account_binding
        then_with bound λ external. do
          id ← new_id s
          elim id [
            | none ↦ pure (refused not_created)
            | some new ↦ do
              at ← now s
              review_account (new_account new key thumbprint payload external at)
          ])

  -- The answer of a second lookup, after a conflict.
  unfoldable pub after_conflict : Account → Result Account → Answer AccountView
  unfolding existing_account
  after_conflict a (ok existing) = existing_account existing
  after_conflict a (err e) =
      if is_not_found e && not (a.external_account_claim == "")
      then refused
          (new_problem unauthorized "the external account key is already bound to another account")
      else refused not_created

  -- The account is stored. A conflict may be an account that was created with the key meanwhile.
  unfoldable pub store_account : Account → String → Run (Answer AccountView)
  unfolding after_conflict account_view
  store_account a thumbprint = do
    stored ← call s (λ c. create_account c a)
    on stored
        (λ e.
          if not (is_conflict e)
          then pure (refused not_created)
          else do again ← call s (λ c. account_by_key c thumbprint); pure (after_conflict a again))
        λ created. pure (accepted (account_view s created))

  -- What follows the lookup by key, which found none.
  unfoldable pub create_from : Bytes → String → NewAccount → Run (Answer AccountView)
  unfolding build_account store_account
  create_from key thumbprint payload =
      if payload.only_return_existing
      then pure (refused (new_problem account_does_not_exist "no account owns this key"))
      else do
        built ← build_account key thumbprint payload
        then_with built λ a. store_account a thumbprint

  unfoldable pub register : Bytes → NewAccount → Run (Answer AccountView)
  unfolding existing_account create_from
  register key payload = elim (keys.thumbprint key) [
    | none ↦ pure (refused (new_problem bad_public_key "account key cannot be thumbprinted"))
    | some thumbprint ↦ do
      found ← call s (λ c. account_by_key c thumbprint)
      on found
          (λ e.
            if not (is_not_found e)
            then pure (refused (new_problem server_internal "account lookup failed"))
            else create_from key thumbprint payload)
          λ existing. pure (existing_account existing)
  ]

  -- `serveNewAccount`
  unfoldable pub serve_new_account :
      (Bytes → Payload NewAccount) → Request → Run (Answer AccountView)
  unfolding read_signed_request decode_payload register
  serve_new_account parse_account r = do
    received ← read_signed_request s wire.algorithms wire.parse r "new-account" embedded_mode
    then_with received.answer λ signed.
        then_with (decode_payload (parse_account signed.payload))
          λ payload. register signed.key payload

  -- `readOwnedAccount`
  unfoldable pub read_owned_account : Request → String → String → Run (Answer (Signed × Account))
  unfolding read_account_request
  read_owned_account r id rel = do
    read ← read_account_request s wire r rel
    then_with read λ (signed, account).
        if not (account.id == id)
        then pure
            (refused (new_problem unauthorized "the signing account does not own this resource"))
        else pure (accepted (signed, account))

  abbrev pub is_other_status : Option String → Bool
  is_other_status none = false
  is_other_status (some status) = not (status == "deactivated")

  abbrev pub with_contact : Option (List String) → Account → Account
  with_contact none a = a
  with_contact (some contact) a = record a { contact = contact }

  abbrev pub with_status_of : Option String → Account → Account
  with_status_of none a = a
  with_status_of (some status) a = record a { status = AccountStatus.deactivated }

  abbrev pub contact_problem : Option (List String) → Option Problem
  unfolding validate_contacts
  contact_problem none = none
  contact_problem (some contact) = validate_contacts s.platform contact

  -- What an update makes of the account.
  unfoldable pub updated_account : AccountUpdate → Account → Answer Account
  unfolding validate_contacts
  updated_account payload a =
      if is_other_status payload.status
      then refused (new_problem malformed "status can only be changed to deactivated")
      else elim (contact_problem payload.contact) [
        | some e ↦ refused e
        | none ↦ accepted (with_status_of payload.status (with_contact payload.contact a))
      ]

  -- `serveAccount`
  unfoldable pub serve_account :
      (Bytes → Payload AccountUpdate) → Request → String → Run (Answer AccountView)
  unfolding read_owned_account decode_payload updated_account update_owned_account account_view
  serve_account parse_update r id = do
    read ← read_owned_account r id (concat "acct/" id)
    then_with read λ (signed, account).
        if is_empty_payload signed.payload
        then pure (accepted (account_view s account))
        else then_with (decode_payload (parse_update signed.payload)) λ payload.
          then_with (updated_account payload account) λ changed. do
            stored ← update_owned_account s changed
            then_with stored λ a. pure (accepted (account_view s a))

  -- The URLs of the listed orders that are not invalid.
  unfoldable pub list_orders : Time → List String → Run (Answer (List String))
  list_orders at [] = pure (accepted [])
  list_orders at (id ∷ ids) = do
    found ← call s (λ c. order c id)
    on found (λ e. pure (refused (new_problem server_internal "order listing failed")))
        λ o. do
          rest ← list_orders at ids
          then_with rest λ urls. pure (
              accepted (
                if not (order_is (status_at o at) OrderStatus.invalid)
                then url_of s (concat "order/" id) ∷ urls
                else urls))

  -- `serveAccountOrders`: the URLs, and whether there are more.
  unfoldable pub serve_account_orders :
      Request → String → String → Run (Answer (List String × Bool))
  unfolding read_owned_account require_empty_payload valid_id list_orders
  serve_account_orders r id cursor = do
    read ← read_owned_account r id (concat "acct/" (concat id "/orders"))
    then_with read λ (signed, account). unless (require_empty_payload signed) (
        if not (cursor == "") && not (valid_id cursor)
        then pure (refused (new_problem malformed "unknown cursor"))
        else do
          listed ← call s (λ c. order_ids c id cursor (suc orders_page_size))
          on listed
              (λ e.
                if is_not_found e
                then pure (refused (new_problem malformed "unknown cursor"))
                else pure (refused (new_problem server_internal "order listing failed")))
              λ ids. do
                at ← now s
                let more = ltb orders_page_size (length ids)
                urls ← list_orders at (if more then take orders_page_size ids else ids)
                then_with urls λ l. pure (accepted (l, more)))
