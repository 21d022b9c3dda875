-- ===== src/Orders/Built.antt =====
-- order.go: what a new order is created with.
use Prim.Native.String.{len, slice}
use text.Mathlib.Text.{starts_with}
use text.Mathlib.TextEquality.{starts_with_iff}
use text.Mathlib.TextPositions.{slice-append_right, len-append}
use go_acme_server.Prelude.{
  ◌≡◌, inl, inr, ap, ◌∙◌, subst, Bool, true, String, List, [], ◌∷◌, ◌++◌, false, refl, sym, ◌=?◌,
  length, arith, Bool-cases, Option-cases, if◌then◌else◌, concat,
}
use go_acme_server.Table.{Table, size}
use go_acme_server.Status.Order.{OrderStatus}
use go_acme_server.Status.Challenge.{ChallengeStatus}
use go_acme_server.Status.Authorization.{AuthorizationStatus}
use go_acme_server.Problem.{Identifier, identifier_eq, is_wildcard}
use go_acme_server.Resource.{ChallengeType, Order, Authorization, Challenge}
use go_acme_server.Server.{Server, World, pure, new_id, new_token, ◌>>=◌}
use go_acme_server.Orders.Methods.{challenge_types_for}
use go_acme_server.Answer.{Answer-cases, accepted}
use go_acme_server.Orders.Response.{order_identifier}
use go_acme_server.Orders.Build.{
  trim_wildcard, is_granted, new_authz, ids_of, new_challenge, build_challenges, build_authz,
  build_loop, authz_ids, build_authorizations,
}

concat-trim_wildcard : (v : String) → starts_with v "*." ≡ true → concat "*." (trim_wildcard v) ≡ v
unfolding trim_wildcard
concat-trim_wildcard v h =
    let (u, same) = (starts_with_iff v "*.").0 h in
    let e = slice-append_right "*." u in
    let n = len-append "*." u in
    let whole =
      subst (λ v. concat "*." (slice v 2 (len v)) ≡ v) same
        (ap (λ r. concat "*." r) (ap (λ k. slice (concat "*." u) 2 k) n ∙ e)) in
    ground arith

new_authz-identifier :
    (order : Order) (id : String) (i : Identifier) → order_identifier (new_authz order id i) ≡ i
unfolding order_identifier new_authz
new_authz-identifier order id i = elim (Bool-cases (is_wildcard i)) [
  | inl w ↦ let e = concat-trim_wildcard i.value (ground arith) in ground arith
  | inr w ↦ ground arith
]

-- Pending challenges of the authorization, one for each type, in their order.
abbrev pub AreFor : Authorization → List ChallengeType → List Challenge → Type 0
AreFor a [] [] = Unit
AreFor a (kind ∷ kinds) (c ∷ cs) =
    (c.kind ≡ kind)
    × (c.authorization_id ≡ a.id)
    × (c.account_id ≡ a.account_id)
    × (c.status ≡ ChallengeStatus.pending)
    × AreFor a kinds cs
AreFor a _ _ = ⊥

-- What a new authorization of the order has for one of its identifiers.
abbrev pub Covers :
    Server → Order → Table Identifier Bool → Identifier → Authorization → List Challenge → Type 0
Covers s order granted i a own =
    (order_identifier a ≡ i)
    × (a.account_id ≡ order.account_id)
    × (a.order_id ≡ order.id)
    × (a.expires ≡ order.expires)
    × (a.pre_approved ≡ is_granted granted i)
    × (a.status
        ≡ (if is_granted granted i then AuthorizationStatus.valid else AuthorizationStatus.pending))
    × (a.challenge_ids ≡ ids_of own)
    × AreFor a (if is_granted granted i then [] else challenge_types_for s i) own

-- One authorization for each identifier, in their order, with its own among the challenges.
abbrev pub CoversAll :
    Server
    → Order
    → Table Identifier Bool
    → List Identifier
    → List Authorization
    → List Challenge
    → Type 0
CoversAll s order granted [] [] cs = cs ≡ []
CoversAll s order granted (i ∷ is) (a ∷ more) cs =
    (own : List Challenge) × (others : List Challenge) × (cs ≡ own ++ others)
    × Covers s order granted i a own
    × CoversAll s order granted is more others
CoversAll s order granted _ _ cs = ⊥

module _ (s : Server) where
  build_challenges-AreFor :
      (order : Order) (a : Authorization) (authz_id : String) (kinds : List ChallengeType)
      (w : World) (cs : List Challenge)
      → a.id ≡ authz_id
      → a.account_id ≡ order.account_id
      → (build_challenges s order authz_id kinds w).0 ≡ accepted cs
      → AreFor a kinds cs
  unfolding build_challenges ◌>>=◌ pure
  build_challenges-AreFor order a authz_id [] w [] own by h = tt
  build_challenges-AreFor order a authz_id [] w (c ∷ cs) own by h = absurd (ground arith)
  build_challenges-AreFor order a authz_id (kind ∷ kinds) w cs own by h =
      let m = new_id s w in
      elim (Option-cases m.0) [
        | inl p ↦ absurd (ground arith)
        | inr (id, p) ↦
            let n = new_token s m.1 in
            elim (Option-cases n.0) [
              | inl q ↦ absurd (ground arith)
              | inr (t, q) ↦
                  let r = build_challenges s order authz_id kinds n.1 in
                  elim (Answer-cases r.0) [
                    | inr (e, k) ↦ absurd (ground arith)
                    | inl (rest, k) ↦
                        let others =
                          build_challenges-AreFor order a authz_id kinds n.1 rest own by k in
                        let made = new_challenge order authz_id id t kind in
                        subst (λ l. AreFor a (kind ∷ kinds) l) {x = made ∷ rest} (ground arith)
                          (refl, sym own, sym by, refl, others)
                  ]
            ]
      ]

  none_for :
      (order : Order) (granted : Table Identifier Bool) (a : Authorization) (i : Identifier)
      (cs : List Challenge)
      → is_granted granted i ≡ true
      → cs ≡ []
      → AreFor a (if is_granted granted i then [] else challenge_types_for s i) cs
  none_for order granted a i cs g e = rw g (subst (λ l. AreFor a [] l) (sym e) tt)

  some_for :
      (order : Order) (granted : Table Identifier Bool) (a made : Authorization) (i : Identifier)
      (cs rest : List Challenge)
      → is_granted granted i ≡ false
      → made ≡ a
      → rest ≡ cs
      → AreFor made (challenge_types_for s i) rest
      → AreFor a (if is_granted granted i then [] else challenge_types_for s i) cs
  some_for order granted a made i cs rest g e f n = rw g (
      subst (λ l. AreFor a (challenge_types_for s i) l) f
        (subst (λ b. AreFor b (challenge_types_for s i) rest) e n))

  build_authz-Covers :
      (order : Order) (granted : Table Identifier Bool) (i : Identifier) (w : World)
      (a : Authorization) (cs : List Challenge)
      → (build_authz s order granted i w).0 ≡ accepted (a, cs)
      → Covers s order granted i a cs
  unfolding build_authz ◌>>=◌ pure new_authz order_identifier
  build_authz-Covers order granted i w a cs h =
      let m = new_id s w in
      elim (Option-cases m.0) [
        | inl p ↦ absurd (ground arith)
        | inr (id, p) ↦
            let same = new_authz-identifier order id i in
            elim (Bool-cases (is_granted granted i)) [
              | inl g ↦ (
                ground arith,
                ground arith,
                ground arith,
                ground arith,
                ground arith,
                ground arith,
                ground arith,
                none_for order granted a i cs g (ground arith),
              )
              | inr g ↦
                  let r = build_challenges s order id (challenge_types_for s i) m.1 in
                  elim (Answer-cases r.0) [
                    | inr (e, k) ↦ absurd (ground arith)
                    | inl (rest, k) ↦
                        let plain = new_authz order id i in
                        let made = record plain { challenge_ids = ids_of rest } in
                        let n =
                          build_challenges-AreFor order made id (challenge_types_for s i) m.1 rest
                            refl refl k in
                        (
                          ground arith,
                          ground arith,
                          ground arith,
                          ground arith,
                          ground arith,
                          ground arith,
                          ground arith,
                          some_for order granted a made i cs rest g (ground arith) (ground arith) n,
                        )
                  ]
            ]
      ]

  covers_same :
      (order : Order) (granted : Table Identifier Bool) (is : List Identifier)
      (l authzs : List Authorization) (k cs : List Challenge)
      → l ≡ authzs
      → k ≡ cs
      → CoversAll s order granted is l k
      → CoversAll s order granted is authzs cs
  covers_same order granted is l authzs k cs e f c =
      subst (λ m. CoversAll s order granted is authzs m) f
        (subst (λ m. CoversAll s order granted is m k) e c)

  build_loop-CoversAll :
      (order : Order) (granted : Table Identifier Bool) (ids : List Identifier) (w : World)
      (authzs : List Authorization) (cs : List Challenge)
      → (build_loop s order granted ids w).0 ≡ accepted (authzs, cs)
      → CoversAll s order granted ids authzs cs
  unfolding build_loop ◌>>=◌ pure
  build_loop-CoversAll order granted [] w [] cs h = ground arith
  build_loop-CoversAll order granted [] w (a ∷ more) cs h = ground arith
  build_loop-CoversAll order granted (i ∷ is) w authzs cs h =
      let m = build_authz s order granted i w in
      elim (Answer-cases m.0) [
        | inr (e, p) ↦ absurd (ground arith)
        | inl ((a, own), p) ↦
            let n = build_loop s order granted is m.1 in
            elim (Answer-cases n.0) [
              | inr (e, q) ↦ absurd (ground arith)
              | inl ((rest, others), q) ↦
                  covers_same order granted (i ∷ is) (a ∷ rest) authzs (own ++ others) cs
                    (ground arith) (ground arith)
                    (
                      own,
                      others,
                      refl,
                      build_authz-Covers order granted i w a own p,
                      build_loop-CoversAll order granted is m.1 rest others q,
                    )
            ]
      ]

-- A new order is created with one authorization for each of its identifiers, in their order, each
-- with its IDs, scope and end; one that was granted is valid without a challenge, any other pending
-- with its own pending challenges, one for each type that may validate it, which are all that are made. The order lists them, and it starts ready
-- when as many were granted as it has identifiers.
pub build_authorizations-CoversAll :
    (s : Server) (order o : Order) (granted : Table Identifier Bool) (w : World)
    (authzs : List Authorization) (cs : List Challenge)
    (built : (build_authorizations s order granted w).0 ≡ accepted (o, authzs, cs))
    → CoversAll s order granted order.identifiers authzs cs
      × (o.authorization_ids ≡ authz_ids authzs)
      × (o.status
          ≡ (if size granted =? length order.identifiers then OrderStatus.ready else order.status))
unfolding build_authorizations ◌>>=◌ pure
build_authorizations-CoversAll s order o granted w authzs cs built =
    let m = build_loop s order granted order.identifiers w in
    elim (Answer-cases m.0) [
      | inr (e, p) ↦ absurd (ground arith)
      | inl ((l, k), p) ↦ (
        covers_same s order granted order.identifiers l authzs k cs (ground arith) (ground arith)
            (build_loop-CoversAll s order granted order.identifiers w l k p),
        ground arith,
        ground arith,
      )
    ]
