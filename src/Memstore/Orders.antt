-- ===== src/Memstore/Orders.antt =====
-- memstore/memstore.go: orders with their authorizations and challenges.
use go_acme_server.Prelude.{
  ℕ, zero, suc, Bool, false, not, ◌||◌, String, ◌==◌, Option, none, some, is_some, ◌=?◌, next_u64,
  List, [], ◌∷◌, ◌++◌, if◌then◌else◌, concat,
}
use go_acme_server.Exec.{
  Ctx, Exec, not_found, conflict, already_replaced, refused, panicked, pure, or_raise, gets, modify,
  fail_if, check_ctx, ◌>>=◌, ◌>>◌,
}
use go_acme_server.Table.{get, put, string_eq}
use go_acme_server.Status.Order.{OrderStatus, is as order_is}
use go_acme_server.Resource.{Order, Authorization, Challenge, status_at}
use go_acme_server.Memstore.{Store, AuthorizationKey, key_eq}

-- The complete scope of an authorization.
unfoldable pub authorization_index_key : Authorization → AuthorizationKey
authorization_index_key a =
    if a.wildcard
    then record {
      account_id = a.account_id;
      identifier = record a.identifier { value = concat "*." a.identifier.value };
    }
    else record { account_id = a.account_id; identifier = a.identifier }

-- `exists || id == ""` for one of the given IDs.
abbrev pub taken : List (Bool × String) → Bool
taken [] = false
taken ((found, id) ∷ rest) = found || id == "" || taken rest

abbrev pub authz_ids_taken : List Authorization → Store → List (Bool × String)
authz_ids_taken [] s = []
authz_ids_taken (a ∷ more) s = (is_some (get a.id s.authzs), a.id) ∷ authz_ids_taken more s

abbrev pub challenge_ids_taken : List Challenge → Store → List (Bool × String)
challenge_ids_taken [] s = []
challenge_ids_taken (c ∷ cs) s = (is_some (get c.id s.challenges), c.id) ∷ challenge_ids_taken cs s

-- `m[k]` for a slice: nil where the key is missing.
abbrev pub or_nil : Option (List String) → List String
or_nil none = []
or_nil (some l) = l

-- An order that is missing does not count as live.
abbrev pub live_at : Option Order → ℕ → Bool
live_at none now = false
live_at (some o) now = not (order_is (status_at o now) OrderStatus.invalid)

-- Marks the certificate that the order replaces unless a live order already replaced it.
unfoldable pub claim_replacement : Order → Exec Store (Unit {0})
claim_replacement order = do
  indexed ← gets (λ s. get order.replaces s.cert_by_renewal)
  id ← or_raise not_found indexed
  found ← gets (λ s. get id s.certificates)
  cert ← or_raise panicked found
  previous ← gets (λ s. get cert.replaced_by_order_id s.orders)
  fail_if (live_at previous order.created_at) already_replaced
  modify (λ s. record s {
    certificates =
        put id (record cert { replaced_by_order_id = order.id; revision = next_u64 cert.revision })
          s.certificates;
  })

unfoldable pub insert_authz : Authorization → Exec Store Authorization
unfolding authorization_index_key
insert_authz a = do
  let created = record a { revision = 1 }
  modify (λ s. record s { authzs = put a.id created s.authzs })
  let key = authorization_index_key a
  modify (λ s. record s {
    authz_index = put key (or_nil (get key s.authz_index) ++ a.id ∷ []) s.authz_index;
  })
  pure created

unfoldable pub insert_authzs : List Authorization → Exec Store (List Authorization)
insert_authzs [] = pure []
insert_authzs (a ∷ more) = do a' ← insert_authz a; more' ← insert_authzs more; pure (a' ∷ more')

unfoldable pub insert_challenges : List Challenge → Exec Store (List Challenge)
insert_challenges [] = pure []
insert_challenges (c ∷ cs) = do
  let created = record c { revision = 1 }
  modify (λ s. record s { challenges = put c.id created s.challenges })
  cs' ← insert_challenges cs
  pure (created ∷ cs')

-- `if order.Replaces != "" { if err := s.claimReplacement(order); … }`
abbrev pub claim_if_replacing : Order → Exec Store (Unit {0})
claim_if_replacing order =
    let claim = claim_replacement order in if order.replaces == "" then pure tt else claim

-- What `CreateOrder` writes for the order itself.
unfoldable pub insert_order : Order → Exec Store Order
insert_order order = do
  let created = record order { revision = 1 }
  modify (λ s. record s { orders = put order.id created s.orders })
  modify (λ s. record s {
    order_ids =
        put order.account_id (or_nil (get order.account_id s.order_ids) ++ order.id ∷ [])
          s.order_ids;
  })
  pure created

unfoldable pub create_order :
    Ctx
    → Order
    → List Authorization
    → List Challenge
    → Exec Store (Order × List Authorization × List Challenge)
create_order ctx order authzs challenges = do
  check_ctx ctx
  fail_if (order.id == "" || order.account_id == "") refused
  found ← gets (λ s. get order.id s.orders)
  fail_if (is_some found) conflict
  authz_ids ← gets (authz_ids_taken authzs)
  fail_if (taken authz_ids) conflict
  challenge_ids ← gets (challenge_ids_taken challenges)
  fail_if (taken challenge_ids) conflict
  claim_if_replacing order
  created ← insert_order order
  authzs' ← insert_authzs authzs
  challenges' ← insert_challenges challenges
  pure (created, authzs', challenges')

-- `Order`.
unfoldable pub order : Ctx → String → Exec Store Order
order ctx id = do check_ctx ctx; found ← gets (λ s. get id s.orders); or_raise not_found found

-- What follows the first occurrence of `after`, `none` where it does not occur.
unfoldable pub following : String → List String → Option (List String)
following after [] = none
following after (id ∷ ids) =
    let rest = following after ids in if id == after then some ids else rest

-- `ids[:min(limit, len(ids))]`
unfoldable pub take : ℕ → List String → List String
take zero ids = []
take (suc n) [] = []
take (suc n) (id ∷ ids) = id ∷ take n ids

-- Up to `limit` order IDs of the account after the given one.
unfoldable pub order_ids : Ctx → String → String → ℕ → Exec Store (List String)
order_ids ctx account_id after limit = do
  check_ctx ctx
  fail_if (limit =? 0) refused
  indexed ← gets (λ s. get account_id s.order_ids)
  let ids = or_nil indexed
  rest ← or_raise not_found (if after == "" then some ids else following after ids)
  pure (take limit rest)
