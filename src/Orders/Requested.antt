-- ===== src/Orders/Requested.antt =====
-- order.go: what the order of a `newOrder` request is.
use go_acme_server.Prelude.{
  ℕ, ◌+◌, ◌≡◌, ◌≢◌, ◌≤◌, ◌⊎◌, inl, inr, refl, sym, arith, subst, true, false, not, ◌||◌, String,
  ◌==◌, eq_iff, Option, none, some, List, [], ◌∷◌, length, ltb, ◌=?◌, Bool-cases, Option-cases,
}
use go_acme_server.Exec.{Ctx, ok, Result-cases, ◌>>=◌ as ◌>>=ₛ◌}
use go_acme_server.Status.Order.{OrderStatus}
use go_acme_server.Problem.{tn_auth_list, nf_instance_id, uri, is_type, Identifier, Problem}
use go_acme_server.Resource.{Time, Account, Order, Certificate, Validation}
use go_acme_server.Table.{get, string_eq}
use go_acme_server.Memstore.{Store}
use go_acme_server.Identifiers.{
  contains, NormalizedAll, all_canonical, some_invalid, normalize_identifiers,
}
use go_acme_server.Identifiers.Canonical.{IsDocumented}
use go_acme_server.Identifiers.Set.{
  HasNoUri, AreNormalized, AllFixed, AllDistinct, normalize_identifiers-AllFixed,
}
use go_acme_server.Memstore.Certificates.{certificate_by_renewal_id}
use go_acme_server.Server.{
  Server, World, HostError, final, retryable, failure, pure, call, new_id, ask_host, is_not_found,
  ◌>>=◌,
}
use go_acme_server.Answer.{Answer-cases, accepted, host_problem, check_limit}
use go_acme_server.Renewal.{valid_renewal_id, shares_identifier, check_replaces}
use go_acme_server.Orders.Methods.{count_identifiers, challenge_types_for}
use go_acme_server.Orders.New.{
  NewOrder, has_text, is_reversed, has_none, check_combination, check_type, check_types,
  check_methods, check_normalized, order_identifiers, order_dates, chosen_profile, select_profile,
  reviewed_order, review_order, order_limit, new_order, build_from, build_order, parse_time,
}

-- Some configured validator may prove each identifier.
abbrev pub AllProvable : Server → List Identifier → Type 0
AllProvable s [] = Unit
AllProvable s (id ∷ ids) = (has_none (challenge_types_for s id) ≡ false) × AllProvable s ids

-- What the identifiers of a new order are.
abbrev pub IsOrderable : Server → List Identifier → Type 0
IsOrderable s ids =
    (1 ≤ length ids)
    × (length ids ≤ s.config.max_identifiers)
    × AllFixed s.platform ids
    × AllDistinct ids
    × (count_identifiers ids tn_auth_list ≤ 1)
    × (count_identifiers ids nf_instance_id ≤ 1)
    × ((count_identifiers ids tn_auth_list ≡ 0) ⊎ (count_identifiers ids nf_instance_id ≡ 0))
    × AllProvable s ids

check_combination-counts :
    (ids : List Identifier)
    → check_combination ids ≡ none
    → (count_identifiers ids tn_auth_list ≤ 1)
      × (count_identifiers ids nf_instance_id ≤ 1)
      × ((count_identifiers ids tn_auth_list ≡ 0) ⊎ (count_identifiers ids nf_instance_id ≡ 0))
unfolding check_combination
check_combination-counts ids h = (ground arith, ground arith, ground arith)

module _ (s : Server) where
  check_type-no_uri : (id : Identifier) → check_type s id ≡ none → is_type id.kind uri ≡ false
  unfolding check_type
  check_type-no_uri id h = ground arith

  check_types-HasNoUri : (ids : List Identifier) → check_types s ids ≡ none → HasNoUri ids
  unfolding check_types
  check_types-HasNoUri [] h = tt
  check_types-HasNoUri (id ∷ ids) h = elim (Option-cases (check_type s id)) [
    | inl e ↦ (check_type-no_uri id e, check_types-HasNoUri ids (ground arith))
    | inr (p, e) ↦ absurd (ground arith)
  ]

  check_methods-AllProvable :
      (ids : List Identifier) → check_methods s ids ≡ none → AllProvable s ids
  unfolding check_methods
  check_methods-AllProvable [] h = tt
  check_methods-AllProvable (id ∷ ids) h = elim (Bool-cases (has_none (challenge_types_for s id))) [
    | inl e ↦ absurd (ground arith)
    | inr e ↦ (e, check_methods-AllProvable ids (ground arith))
  ]

  NormalizedAll-cases :
      (r : NormalizedAll)
      → ((l : List Identifier) × (r ≡ all_canonical l)) ⊎ ((q : Problem) × (r ≡ some_invalid q))
  NormalizedAll-cases (all_canonical l) = inl (l, refl)
  NormalizedAll-cases (some_invalid q) = inr (q, refl)

  check_normalized-accepted :
      (l out : List Identifier)
      → check_normalized s (all_canonical l) ≡ accepted out
      → (l ≡ out) × (check_combination l ≡ none) × (check_methods s l ≡ none)
  unfolding check_normalized
  check_normalized-accepted l out h = elim (Option-cases (check_combination l)) [
    | inr (p, e) ↦ absurd (ground arith)
    | inl e ↦ elim (Option-cases (check_methods s l)) [
      | inr (p, k) ↦ absurd (ground arith)
      | inl k ↦ (ground arith, e, k)
    ]
  ]

  none_accepted :
      (q : Problem) (out : List Identifier) → check_normalized s (some_invalid q) ≡ accepted out → ⊥
  unfolding check_normalized
  none_accepted q out h = ground arith

  order_identifiers-IsOrderable :
      (go : IsDocumented s.platform) (ids out : List Identifier)
      → order_identifiers s ids ≡ accepted out
      → IsOrderable s out × AreNormalized s.platform ids out
  unfolding order_identifiers
  order_identifiers-IsOrderable go ids out h = elim (Bool-cases (length ids =? 0)) [
    | inl e ↦ absurd (ground arith)
    | inr e ↦ elim (Bool-cases (ltb s.config.max_identifiers (length ids))) [
      | inl k ↦ absurd (ground arith)
      | inr k ↦ elim (Option-cases (check_types s ids)) [
        | inr (p, t) ↦ absurd (ground arith)
        | inl t ↦ elim (NormalizedAll-cases (normalize_identifiers s.platform ids)) [
          | inr (q, n) ↦ absurd (none_accepted q out (ground arith))
          | inl (l, n) ↦
              let (same, c, m) = check_normalized-accepted l out (ground arith) in
              let (f, d, len, each) =
                normalize_identifiers-AllFixed s.platform go ids l (check_types-HasNoUri ids t) n in
              let (lists, instances, apart) = check_combination-counts l c in
              subst (λ x. IsOrderable s x × AreNormalized s.platform ids x) same
                (
                  (
                    ground arith,
                    ground arith,
                    f,
                    d,
                    lists,
                    instances,
                    apart,
                    check_methods-AllProvable l m,
                  ),
                  each,
                )
        ]
      ]
    ]
  ]

  -- No date where none is given, or the one that the text is.
  abbrev pub IsParsed : String → Time → Type 0
  IsParsed value t =
      ((value ≡ "") × (t ≡ 0)) ⊎ ((value ≢ "") × (s.platform.parse_time value ≡ some t))

  parse_time-IsParsed :
      (value field : String) (t : Time)
      → parse_time s.platform value field ≡ accepted t
      → IsParsed value t
  unfolding parse_time
  parse_time-IsParsed value field t h = elim (Bool-cases (value == "")) [
    | inl e ↦ inl ((eq_iff value "").0 e, ground arith)
    | inr e ↦ elim (Option-cases (s.platform.parse_time value)) [
      | inl k ↦ absurd (ground arith)
      | inr (u, k) ↦ inr (λ n. ground (arith, eq_iff value ""), ground arith)
    ]
  ]

  order_dates-ordered :
      (payload : NewOrder) (dates : Time × Time)
      → order_dates s payload ≡ accepted dates
      → IsParsed payload.not_before dates.0
        × IsParsed payload.not_after dates.1
        × (is_reversed dates.0 dates.1 ≡ false)
  unfolding order_dates
  order_dates-ordered payload dates h =
      elim (Answer-cases (parse_time s.platform payload.not_before "notBefore")) [
        | inr (p, e) ↦ absurd (ground arith)
        | inl (from, e) ↦ elim (Answer-cases (parse_time s.platform payload.not_after "notAfter")) [
          | inr (p, k) ↦ absurd (ground arith)
          | inl (to, k) ↦ elim (Bool-cases (is_reversed from to)) [
            | inl r ↦ absurd (ground arith)
            | inr r ↦ (
              parse_time-IsParsed payload.not_before "notBefore" dates.0 (ground arith),
              parse_time-IsParsed payload.not_after "notAfter" dates.1 (ground arith),
              ground arith,
            )
          ]
        ]
      ]

  -- The profile that the client named, one that the server offers, or the default.
  abbrev pub IsOffered : String → String → Type 0
  IsOffered requested profile =
      ((requested ≢ "") × (profile ≡ requested) × (has_text profile s.config.profiles ≡ true))
      ⊎ ((requested ≡ "")
          × ((profile ≡ s.config.default_profile) ⊎ (has_text profile s.config.profiles ≡ true)))

  chosen_profile-offered :
      (answer : String × Option HostError) (profile : String)
      → chosen_profile s answer ≡ accepted profile
      → (profile ≡ s.config.default_profile) ⊎ (has_text profile s.config.profiles ≡ true)
  unfolding chosen_profile host_problem
  chosen_profile-offered (chosen, some e) profile h =
      elim (Option-cases (host_problem (some e) "profile choice")) [
        | inl k ↦ absurd (ground arith)
        | inr (p, k) ↦ absurd (ground arith)
      ]
  chosen_profile-offered (chosen, none) profile h = elim (Bool-cases (chosen == "")) [
    | inl e ↦ inl (ground arith)
    | inr e ↦ elim (Bool-cases (has_text chosen s.config.profiles)) [
      | inr k ↦ absurd (ground arith)
      | inl k ↦ inr (ground arith)
    ]
  ]

  select_profile-IsOffered :
      (account : Account) (requested profile : String) (w : World)
      → (select_profile s account requested w).0 ≡ accepted profile
      → IsOffered requested profile
  unfolding select_profile ask_host pure ◌>>=◌
  select_profile-IsOffered account requested profile w h = elim (Bool-cases (requested == "")) [
    | inr e ↦ elim (Bool-cases (has_text requested s.config.profiles)) [
      | inr k ↦ absurd (ground arith)
      | inl k ↦ inl (λ n. ground (arith, eq_iff requested ""), ground arith, ground arith)
    ]
    | inl e ↦ elim (Option-cases s.host.profile_chooser) [
      | inl k ↦ inr ((eq_iff requested "").0 e, inl (ground arith))
      | inr (chooser, k) ↦ inr (
        (eq_iff requested "").0 e,
        chosen_profile-offered (chooser w.steps account) profile (ground arith),
      )
    ]
  ]

  -- An identifier that was validated is one of the list.
  abbrev pub SharesOne : List Validation → List Identifier → Type 0
  SharesOne [] ids = ⊥
  SharesOne (v ∷ vs) ids = (contains v.identifier ids ≡ true) ⊎ SharesOne vs ids

  shares_identifier-SharesOne :
      (vs : List Validation) (ids : List Identifier)
      → shares_identifier vs ids ≡ true
      → SharesOne vs ids
  unfolding shares_identifier
  shares_identifier-SharesOne [] ids h = absurd (ground arith)
  shares_identifier-SharesOne (v ∷ vs) ids h = elim (Bool-cases (contains v.identifier ids)) [
    | inl e ↦ inl e
    | inr e ↦ inr (shares_identifier-SharesOne vs ids (ground arith))
  ]

  -- The store has a certificate of the account with the renewal ID, which was issued for one of the
  -- identifiers at least.
  abbrev pub IsPredecessor : Account → List Identifier → String → Store → Type 0
  IsPredecessor account ids replaces st =
      (id : String) × (cert : Certificate) × (get replaces st.cert_by_renewal ≡ some id)
      × (get id st.certificates ≡ some cert)
      × (cert.account_id ≡ account.id)
      × SharesOne cert.validations ids

  -- No predecessor where none is named or renewal is off, or the named one, of a valid form, as the
  -- store has it when it is looked up.
  abbrev pub IsReplaceable : Account → List Identifier → String → String → World → Type 0
  IsReplaceable account ids requested replaces w =
      ((replaces ≡ "") × ((requested ≡ "") ⊎ (s.config.renewal ≡ false)))
      ⊎ ((s.config.renewal ≡ true)
          × (replaces ≡ requested)
          × (valid_renewal_id replaces ≡ true)
          × IsPredecessor account ids replaces (s.interfere w.steps w.store))

  by_renewal_id :
      (ctx : Ctx) (replaces : String) (st : Store) (cert : Certificate)
      → (certificate_by_renewal_id ctx replaces st).0 ≡ ok cert
      → (id : String) × (get replaces st.cert_by_renewal ≡ some id)
        × (get id st.certificates ≡ some cert)
  unfolding certificate_by_renewal_id ◌>>=ₛ◌
  by_renewal_id ctx replaces st cert h = elim (Option-cases (get replaces st.cert_by_renewal)) [
    | inl e ↦ absurd (ground arith)
    | inr (id, e) ↦ (id, e, ground arith)
  ]

  unnamed :
      (requested : String)
      → (requested == "" || not s.config.renewal) ≡ true
      → (requested ≡ "") ⊎ (s.config.renewal ≡ false)
  unnamed requested h = elim (Bool-cases (requested == "")) [
    | inl e ↦ inl ((eq_iff requested "").0 e)
    | inr e ↦ inr (ground arith)
  ]

  check_replaces-IsReplaceable :
      (account : Account) (ids : List Identifier) (requested replaces : String) (w : World)
      → (check_replaces s account ids requested w).0 ≡ accepted replaces
      → IsReplaceable account ids requested replaces w
  unfolding check_replaces ◌>>=◌ pure call
  check_replaces-IsReplaceable account ids requested replaces w h =
      elim (Bool-cases (requested == "" || not s.config.renewal)) [
        | inl e ↦ inl (ground arith, unnamed requested e)
        | inr e ↦ elim (Bool-cases (valid_renewal_id requested)) [
          | inr k ↦ absurd (ground arith)
          | inl k ↦
              let m = call s (λ c. certificate_by_renewal_id c requested) w in
              elim (Result-cases m.0) [
                | inr (x, p) ↦ elim (Bool-cases (is_not_found x)) [
                  | inl q ↦ absurd (ground arith)
                  | inr q ↦ absurd (ground arith)
                ]
                | inl (cert, p) ↦ elim (Bool-cases (cert.account_id == account.id)) [
                  | inr q ↦ absurd (ground arith)
                  | inl q ↦ elim (Bool-cases (shares_identifier cert.validations ids)) [
                    | inr r ↦ absurd (ground arith)
                    | inl r ↦
                        let st = s.interfere w.steps w.store in
                        let (id, indexed, there) =
                          by_renewal_id (s.ctx w.steps) requested st cert p in
                        let own = (eq_iff cert.account_id account.id).0 q in
                        let shared = shares_identifier-SharesOne cert.validations ids r in
                        let same : requested ≡ replaces = ground arith in
                        inr (
                          ground arith,
                          sym same,
                          ground arith,
                          subst (λ r. IsPredecessor account ids r st) same
                              (id, cert, indexed, there, own, shared),
                        )
                  ]
                ]
              ]
        ]
      ]

  -- What the policy let through: it reported no error, changed nothing of its copy but the dates, and
  -- the dates that it left are in order where both are given.
  abbrev pub IsReviewed : Order → Order × Option HostError → Time → Time → Type 0
  IsReviewed order (theirs, e) not_before not_after =
      (e ≡ none)
      × (s.host.deep_equal
            (record theirs { not_before = order.not_before; not_after = order.not_after }) order
          ≡ true)
      × (not_before ≡ theirs.not_before)
      × (not_after ≡ theirs.not_after)
      × (is_reversed not_before not_after ≡ false)

  -- The order with the dates that the policy left.
  abbrev pub HasDates : Order → Order × Option HostError → Order → Type 0
  HasDates order answer reviewed =
      (reviewed ≡ record order { not_before = reviewed.not_before; not_after = reviewed.not_after })
      × IsReviewed order answer reviewed.not_before reviewed.not_after

  no_error : (e : Option HostError) (what : String) → host_problem e what ≡ none → e ≡ none
  unfolding host_problem
  no_error none what h = refl
  no_error (some (final p)) what h = absurd (ground arith)
  no_error (some (retryable p)) what h = absurd (ground arith)
  no_error (some failure) what h = absurd (ground arith)

  reviewed_order-HasDates :
      (order reviewed : Order) (answer : Order × Option HostError)
      → reviewed_order s order answer ≡ accepted reviewed
      → HasDates order answer reviewed
  unfolding reviewed_order host_problem
  reviewed_order-HasDates order reviewed (theirs, e) h =
      elim (Option-cases (host_problem e "order policy")) [
        | inr (p, k) ↦ absurd (ground arith)
        | inl k ↦
            let kept = record theirs {
              not_before = order.not_before;
              not_after = order.not_after;
            } in
            elim (Bool-cases (s.host.deep_equal kept order)) [
              | inr q ↦ absurd (ground arith)
              | inl q ↦ elim (Bool-cases (is_reversed theirs.not_before theirs.not_after)) [
                | inl r ↦ absurd (ground arith)
                | inr r ↦ (
                  ground arith,
                  (no_error e "order policy" k, q, ground arith, ground arith, ground arith),
                )
              ]
            ]
      ]

  review_order-HasDates :
      (account : Account) (order reviewed : Order) (w : World)
      → (review_order s account order w).0 ≡ accepted reviewed
      → HasDates order (s.host.new_order w.steps account order) reviewed
  unfolding review_order ask_host pure ◌>>=◌
  review_order-HasDates account order reviewed w h =
      reviewed_order-HasDates order reviewed (s.host.new_order w.steps account order) h

  -- The dates are those that the policy left of the ones that were asked for.
  abbrev pub HasAskedDates : Account → NewOrder → Order → Type 0
  HasAskedDates account payload order =
      (dates : Time × Time) × IsParsed payload.not_before dates.0
      × IsParsed payload.not_after dates.1
      × (is_reversed dates.0 dates.1 ≡ false)
      × ((n : ℕ) × (let draft = record order { not_before = dates.0; not_after = dates.1 } in
            IsReviewed draft (s.host.new_order n account draft) order.not_before order.not_after))

  -- What the order of a request is: a pending one of the account, with the identifiers that were
  -- asked for in their canonical form, which expires after the configured lifetime.
  abbrev pub IsRequested : Account → NewOrder → Time → World → Order → Type 0
  IsRequested account payload at w order =
      IsOrderable s order.identifiers
      × AreNormalized s.platform payload.identifiers order.identifiers
      × IsOffered payload.profile order.profile
      × IsReplaceable account order.identifiers payload.replaces order.replaces
          (select_profile s account payload.profile w).1
      × HasAskedDates account payload order
      × (order.status ≡ OrderStatus.pending)
      × (order.account_id ≡ account.id)
      × (order.created_at ≡ at)
      × (order.expires ≡ at + s.config.order_lifetime)
      × (order.authorization_ids ≡ [])

  HasDates-IsRequested :
      (account : Account) (payload : NewOrder) (at : Time) (id : String) (ids : List Identifier)
      (dates : Time × Time) (profile replaces : String) (n : ℕ) (w : World) (order : Order)
      → IsOrderable s ids
      → AreNormalized s.platform payload.identifiers ids
      → IsOffered payload.profile profile
      → IsReplaceable account ids payload.replaces replaces
          (select_profile s account payload.profile w).1
      → IsParsed payload.not_before dates.0
        × IsParsed payload.not_after dates.1
        × (is_reversed dates.0 dates.1 ≡ false)
      → (let draft = new_order s id account ids dates profile replaces at in
          HasDates draft (s.host.new_order n account draft) order)
      → IsRequested account payload at w order
  unfolding new_order
  HasDates-IsRequested account payload at id ids dates profile replaces n w order i c o r
        (from, to, d) (same, reviewed) =
      subst (λ x. IsRequested account payload at w x) (sym same)
        (i, c, o, r, (dates, from, to, d, (n, reviewed)), refl, refl, refl, refl, refl)

  build_from-IsRequested :
      (account : Account) (payload : NewOrder) (at : Time) (ids : List Identifier)
      (dates : Time × Time) (w : World) (order : Order)
      → IsOrderable s ids
      → AreNormalized s.platform payload.identifiers ids
      → IsParsed payload.not_before dates.0
        × IsParsed payload.not_after dates.1
        × (is_reversed dates.0 dates.1 ≡ false)
      → (build_from s account payload at ids dates w).0 ≡ accepted order
      → IsRequested account payload at w order
  unfolding build_from ◌>>=◌ pure
  build_from-IsRequested account payload at ids dates w order i c' asked h =
      let a = select_profile s account payload.profile w in
      elim (Answer-cases a.0) [
        | inr (p, e) ↦ absurd (ground arith)
        | inl (profile, e) ↦
            let b = check_replaces s account ids payload.replaces a.1 in
            elim (Answer-cases b.0) [
              | inr (p, k) ↦ absurd (ground arith)
              | inl (replaces, k) ↦
                  let c = new_id s b.1 in
                  elim (Option-cases c.0) [
                    | inl q ↦ absurd (ground arith)
                    | inr (id, q) ↦
                        let req = order_limit s account ids replaces in
                        let d = check_limit s req c.1 in
                        elim (Option-cases d.0) [
                          | inr (p, l) ↦ absurd (ground arith)
                          | inl l ↦
                              let draft = new_order s id account ids dates profile replaces at in
                              HasDates-IsRequested account payload at id ids dates profile replaces
                                d.1.steps w order i c'
                                (select_profile-IsOffered account payload.profile profile w e)
                                (check_replaces-IsReplaceable account ids payload.replaces replaces
                                  a.1 k)
                                asked (review_order-HasDates account draft order d.1 (ground arith))
                        ]
                  ]
            ]
      ]

-- The order that is made of a request is pending, the account's own, and expires after the
-- configured lifetime. Its identifiers are the canonical forms of those of the request, no two are the same, there are as many as the
-- configuration lets through and at least one; at most one is a TNAuthList or an NfInstanceId, and
-- some validator may prove each. Its profile is one that the server offers or the default, the
-- requested one where one was. Its predecessor is the requested one, a stored certificate of the account
-- that was issued for one of the identifiers, or none where none was requested or renewal is off. Its
-- dates are what the policy made of the requested ones, without an error and without another change,
-- and both pairs are in order. The Go library and the host are as documented.
pub build_order-IsRequested :
    (s : Server) (go : IsDocumented s.platform) (account : Account) (payload : NewOrder) (at : Time)
    (w : World) (order : Order) (built : (build_order s account payload at w).0 ≡ accepted order)
    → IsRequested s account payload at w order
unfolding build_order ◌>>=◌ pure
build_order-IsRequested s go account payload at w order built =
    elim (Answer-cases (order_identifiers s payload.identifiers)) [
      | inr (p, e) ↦ absurd (ground arith)
      | inl (ids, e) ↦ elim (Answer-cases (order_dates s payload)) [
        | inr (p, k) ↦ absurd (ground arith)
        | inl (dates, k) ↦
            let (fit, each) = order_identifiers-IsOrderable s go payload.identifiers ids e in
            build_from-IsRequested s account payload at ids dates w order fit each
              (order_dates-ordered s payload dates k) (ground arith)
      ]
    ]
