-- ===== src/Orders/New.antt =====
-- order.go: `buildOrder` and what it asks the policy.
use go_acme_server.Prelude.{
  ◌+◌, Bool, true, false, not, ◌&&◌, ◌||◌, String, ◌==◌, Option, none, some, List, [], ◌∷◌, ltb,
  ◌=?◌, length, if◌then◌else◌, concat,
}
use go_acme_server.Table.{Table, put, empty}
use go_acme_server.Status.Order.{OrderStatus}
use go_acme_server.Problem.{
  ip, tn_auth_list, nf_instance_id, uri, is_type, Identifier, identifier_eq, Problem, new_problem,
  with_identifier, malformed, unsupported_identifier, rejected_identifier, invalid_profile,
}
use go_acme_server.Resource.{Time, Account, Order, after, is_zero}
use go_acme_server.Platform.{Platform}
use go_acme_server.Identifiers.{
  canonical, invalid, normalize, contains, NormalizedAll, all_canonical, some_invalid,
  normalize_identifiers,
}
use go_acme_server.Server.{
  Server, Run, HostError, failure, LimitRequest, limit_new_order, pure, ask_host, new_id, ◌>>=◌,
}
use go_acme_server.Answer.{Answer, accepted, refused, then_with, unless, host_problem, check_limit}
use go_acme_server.Renewal.{check_replaces}
use go_acme_server.Orders.Methods.{count_identifiers, challenge_types_for}
use go_acme_server.Orders.Build.{or_fail}

-- `newOrderJSON`
pub record NewOrder : Type 0 where
  pub identifiers : List Identifier
  pub not_before : String
  pub not_after : String
  pub replaces : String
  pub profile : String

-- `_, ok := s.profiles[name]`
abbrev pub has_text : String → List String → Bool
has_text name [] = false
has_text name (x ∷ xs) = x == name || has_text name xs

-- Both ends are given, and the second is not after the first.
abbrev pub is_reversed : Time → Time → Bool
is_reversed not_before not_after =
    not (is_zero not_before) && not (is_zero not_after) && not (after not_after not_before)

abbrev pub has_none : {A : Type 0} → List A → Bool
has_none [] = true
has_none (x ∷ xs) = false

-- What is checked of the normalized identifiers as a set.
unfoldable pub check_combination : List Identifier → Option Problem
unfolding count_identifiers
check_combination ids =
    let lists = count_identifiers ids tn_auth_list in
    let instances = count_identifiers ids nf_instance_id in
    if ltb 1 lists
    then some (new_problem malformed "an order may have at most one TNAuthList identifier")
    else if ltb 1 instances
    then some (new_problem malformed "an order may have at most one NfInstanceId identifier")
    else if ltb 0 instances && ltb 0 lists
    then some
        (new_problem malformed "an order may not combine NfInstanceId and TNAuthList identifiers")
    else none

unfoldable pub parse_time : Platform → String → String → Answer Time
parse_time p value field = if value == "" then accepted 0 else elim (p.parse_time value) [
  | some t ↦ accepted t
  | none ↦ refused (new_problem malformed (concat field " is not an RFC 3339 timestamp"))
]

abbrev pub unsupported : Identifier → String → Option Problem
unsupported id detail = some (with_identifier id (new_problem unsupported_identifier detail))

module _ (s : Server) where
  -- The types that the configuration leaves out, and uri names.
  unfoldable pub check_type : Identifier → Option Problem
  check_type id =
      if is_type id.kind ip && not s.config.ip_identifiers
      then unsupported id "IP identifiers are not supported"
      else if is_type id.kind tn_auth_list && not s.config.tn_auth_lists
      then unsupported id "TNAuthList identifiers are not supported"
      else if is_type id.kind nf_instance_id && not s.config.nf_instance_ids
      then unsupported id "NfInstanceId identifiers are not supported"
      else if is_type id.kind uri
      then unsupported id "uri names come only from authority tokens"
      else none

  unfoldable pub check_types : List Identifier → Option Problem
  unfolding check_type
  check_types [] = none
  check_types (id ∷ ids) =
      let rest = check_types ids in elim (check_type id) [ some p ↦ some p | none ↦ rest ]

  unfoldable pub check_methods : List Identifier → Option Problem
  unfolding challenge_types_for
  check_methods [] = none
  check_methods (id ∷ ids) =
      let rest = check_methods ids in
      if has_none (challenge_types_for s id)
      then some (
          with_identifier id
            (new_problem rejected_identifier "no supported validation method for this identifier"))
      else rest

  abbrev pub refuse_if : {A : Type 0} → Option Problem → Answer A → Answer A
  refuse_if (some p) go = refused p
  refuse_if none go = go

  -- The checks behind `NormalizeIdentifiers`.
  unfoldable pub check_normalized : NormalizedAll → Answer (List Identifier)
  unfolding check_combination check_methods
  check_normalized (some_invalid p) = refused p
  check_normalized (all_canonical ids) =
      refuse_if (check_combination ids) (refuse_if (check_methods ids) (accepted ids))

  -- The identifiers of a new order.
  unfoldable pub order_identifiers : List Identifier → Answer (List Identifier)
  unfolding check_types check_normalized normalize_identifiers
  order_identifiers ids =
      if length ids =? 0
      then refused (new_problem malformed "an order needs at least one identifier")
      else if ltb s.config.max_identifiers (length ids)
      then refused (
          new_problem malformed (
            concat "an order may have at most "
              (concat (s.decimal s.config.max_identifiers) " identifiers")))
      else refuse_if (check_types ids) (check_normalized (normalize_identifiers s.platform ids))

  unfoldable pub order_dates : NewOrder → Answer (Time × Time)
  unfolding parse_time
  order_dates payload = elim (parse_time s.platform payload.not_before "notBefore") [
    | refused p ↦ refused p
    | accepted not_before ↦ elim (parse_time s.platform payload.not_after "notAfter") [
      | refused p ↦ refused p
      | accepted not_after ↦
          if is_reversed not_before not_after
          then refused (new_problem malformed "notAfter must be later than notBefore")
          else accepted (not_before, not_after)
    ]
  ]

  -- What a chooser of the policy answered.
  unfoldable pub chosen_profile : String × Option HostError → Answer String
  unfolding host_problem
  chosen_profile (chosen, e) = elim (host_problem e "profile choice") [
    | some p ↦ refused p
    | none ↦
        if chosen == ""
        then accepted s.config.default_profile
        else if not (has_text chosen s.config.profiles)
        then refuse_if (host_problem (some failure) "profile choice") (accepted "")
        else accepted chosen
  ]

  -- `selectProfile`
  unfoldable pub select_profile : Account → String → Run (Answer String)
  unfolding chosen_profile
  select_profile account requested =
      if not (requested == "")
      then if not (has_text requested s.config.profiles)
        then pure (
            refused (new_problem invalid_profile "the server does not offer the requested profile"))
        else pure (accepted requested)
      else elim s.host.profile_chooser [
        | none ↦ pure (accepted s.config.default_profile)
        | some chooser ↦ do
          answer ← ask_host s (λ n. chooser n account)
          pure (chosen_profile answer)
      ]

  -- What the policy made of its copy of the order.
  unfoldable pub reviewed_order : Order → Order × Option HostError → Answer Order
  unfolding host_problem
  reviewed_order order (reviewed, e) =
      let what : String = "order policy" in
      let kept = record reviewed { not_before = order.not_before; not_after = order.not_after } in
      refuse_if (host_problem e what) (
        refuse_if
          (host_problem
            (if not (s.host.deep_equal kept order)
                || is_reversed reviewed.not_before reviewed.not_after
              then some failure
              else none)
            what)
          (accepted
            (record order { not_before = reviewed.not_before; not_after = reviewed.not_after })))

  -- `reviewOrder`, which answers with the order that it leaves.
  unfoldable pub review_order : Account → Order → Run (Answer Order)
  unfolding reviewed_order
  review_order account order = do
    answer ← ask_host s (λ n. s.host.new_order n account order)
    pure (reviewed_order order answer)

  abbrev pub order_limit : Account → List Identifier → String → LimitRequest
  order_limit account identifiers replaces = record {
    kind = limit_new_order;
    account = some account;
    identifiers = identifiers;
    replaces = replaces;
    pending_validations = 0;
  }

  unfoldable pub new_order :
      String → Account → List Identifier → Time × Time → String → String → Time → Order
  new_order id account identifiers dates profile replaces at = record {
    id = id;
    account_id = account.id;
    status = OrderStatus.pending;
    expires = at + s.config.order_lifetime;
    identifiers = identifiers;
    not_before = dates.0;
    not_after = dates.1;
    authorization_ids = [];
    error = none;
    csr = [];
    certificate_id = "";
    issuance = none;
    unpublished_result = none;
    replaces = replaces;
    profile = profile;
    created_at = at;
    revision = 0;
  }

  -- What follows the checks of the payload.
  unfoldable pub build_from :
      Account → NewOrder → Time → List Identifier → Time × Time → Run (Answer Order)
  unfolding new_order select_profile review_order check_limit check_replaces
  build_from account payload at identifiers dates = do
    chosen ← select_profile account payload.profile
    then_with chosen λ profile. do
      checked ← check_replaces s account identifiers payload.replaces
      then_with checked λ replaces. do
        new ← new_id s
        or_fail new λ id. do
          limited ← check_limit s (order_limit account identifiers replaces)
          unless limited
              (review_order account (new_order id account identifiers dates profile replaces at))

  -- `buildOrder`
  unfoldable pub build_order : Account → NewOrder → Time → Run (Answer Order)
  unfolding order_identifiers order_dates build_from
  build_order account payload at = then_with (order_identifiers payload.identifiers) λ identifiers.
      then_with (order_dates payload) λ dates. build_from account payload at identifiers dates

  -- The identifiers that the policy names, each in its canonical form one of the order's.
  unfoldable pub grant_loop : Order → List Identifier → Answer (Table Identifier Bool)
  unfolding normalize host_problem
  grant_loop order [] = accepted empty
  grant_loop order (id ∷ ids) =
      let rest = grant_loop order ids in
      let unknown =
        refuse_if (host_problem (some failure) "pre-approval policy") (accepted empty) in
      elim (normalize s.platform id) [
        | invalid p ↦ unknown
        | canonical n ↦
            if not (contains n order.identifiers)
            then unknown
            else elim rest [ refused p ↦ refused p | accepted table ↦ accepted (put n true table) ]
      ]

  abbrev pub pre_approved :
      Order → Order × List Identifier × Option HostError → Answer (Table Identifier Bool)
  unfolding grant_loop
  pre_approved order (reviewed, ids, e) =
      let what : String = "pre-approval policy" in
      refuse_if (host_problem e what) (
        if not (s.host.deep_equal reviewed order)
        then refuse_if (host_problem (some failure) what) (accepted empty)
        else grant_loop order ids)

  -- `preApprove`
  unfoldable pub pre_approve : Account → Order → Run (Answer (Table Identifier Bool))
  unfolding grant_loop
  pre_approve account order = elim s.host.pre_approver [
    | none ↦ pure (accepted empty)
    | some approver ↦ do
      answer ← ask_host s (λ n. approver n account order)
      pure (pre_approved order answer)
  ]
