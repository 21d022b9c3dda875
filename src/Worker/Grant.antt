-- ===== src/Worker/Grant.antt =====
-- worker.go: `checkGrant`, and what a validator that names a grant can make of an authorization.
use go_acme_server.Prelude.{
  ◌≡◌, ◌⊎◌, inl, inr, refl, arith, Bool, true, false, not, ◌&&◌, ◌||◌, String, ◌==◌, eq_iff, subst,
  List, [], ◌∷◌, ◌++◌, if◌then◌else◌, Bool-cases,
}
use go_acme_server.Platform.{Platform}
use go_acme_server.Problem.{
  IdentifierType, dns, ip, uri, is_type, Identifier, new_problem, server_internal,
}
use go_acme_server.Identifiers.{Normalized, canonical, invalid, normalize, valid_nf_type, contains}
use go_acme_server.Identifiers.Set.{AllDistinct, AllDistinct-snoc, Normalized-cases}
use go_acme_server.Server.{ValidationGrant, final, Validated, granted, failed}

-- The names that a certificate request can add to an order.
abbrev pub is_requestable : IdentifierType → Bool
is_requestable kind = is_type kind dns || is_type kind ip || is_type kind uri

pub data Names : Type 0 where
  usable_names : List Identifier → Names
  unusable_names : Names

abbrev pub if_usable : Normalized → (Identifier → Names) → Names
if_usable (canonical id) go = if not (is_requestable id.kind) then unusable_names else go id
if_usable (invalid p) go = unusable_names

module _ (p : Platform) where
  -- The loop over the names, with the names so far.
  unfoldable pub name_loop : List Identifier → List Identifier → Names
  unfolding normalize
  name_loop names [] = usable_names names
  name_loop names (name ∷ more) = if_usable (normalize p name) λ id.
      let again = name_loop names more in
      let longer = name_loop (names ++ (id ∷ [])) more in
      if not (contains id names) then longer else again

  abbrev pub with_names : ValidationGrant → Names → Validated
  with_names grant (usable_names names) = granted (record grant { names = names })
  with_names grant unusable_names =
      failed (final (new_problem server_internal "the validator granted an unusable name"))

  unfoldable pub check_grant : ValidationGrant → Validated
  unfolding name_loop valid_nf_type
  check_grant grant =
      if not (grant.nf_type == "") && not (valid_nf_type grant.nf_type)
      then failed (final (new_problem server_internal "the validator granted an invalid NF type"))
      else with_names grant (name_loop [] grant.names)

  -- `validate`, after the answer of the validator: a validator that grants nothing answers with the
  -- zero grant, which the check lets through as it is.
  unfoldable pub checked : Validated → Validated
  unfolding check_grant
  checked (granted grant) = check_grant grant
  checked (failed e) = failed e

-- Each name is the canonical form of some name, and of a type that a request may add.
abbrev pub AllUsable : Platform → List Identifier → Type 0
AllUsable p [] = Unit
AllUsable p (id ∷ ids) =
    ((name : Identifier) × (normalize p name ≡ canonical id))
    × (is_requestable id.kind ≡ true)
    × AllUsable p ids

AllUsable-snoc :
    (p : Platform) (l : List Identifier) (name n : Identifier)
    → AllUsable p l
    → normalize p name ≡ canonical n
    → is_requestable n.kind ≡ true
    → AllUsable p (l ++ (n ∷ []))
AllUsable-snoc p [] name n u e k = ((name, e), k, tt)
AllUsable-snoc p (x ∷ l) name n (f, g, u) e k = (f, g, AllUsable-snoc p l name n u e k)

module _ (p : Platform) where
  name_loop-usable :
      (names rest out : List Identifier)
      → AllUsable p names
      → AllDistinct names
      → name_loop p names rest ≡ usable_names out
      → AllUsable p out × AllDistinct out
  unfolding name_loop
  name_loop-usable names [] out u d h =
      let same : names ≡ out = ground arith in
      subst (λ l. AllUsable p l × AllDistinct l) same (u, d)
  name_loop-usable names (name ∷ rest) out u d h = elim (Normalized-cases (normalize p name)) [
    | inr (q, e) ↦ absurd (ground arith)
    | inl (n, e) ↦ elim (Bool-cases (is_requestable n.kind)) [
      | inr odd ↦ absurd (ground arith)
      | inl k ↦ elim (Bool-cases (contains n names)) [
        | inl twice ↦ name_loop-usable names rest out u d (ground arith)
        | inr fresh ↦
            name_loop-usable (names ++ (n ∷ [])) rest out (AllUsable-snoc p names name n u e k)
              (AllDistinct-snoc names n d fresh) (ground arith)
      ]
    ]
  ]

Names-cases : (r : Names) → ((l : List Identifier) × (r ≡ usable_names l)) ⊎ (r ≡ unusable_names)
Names-cases (usable_names l) = inl (l, refl)
Names-cases unusable_names = inr refl

empty_or_valid :
    (t : String)
    → (not (t == "") && not (valid_nf_type t)) ≡ false
    → (t ≡ "") ⊎ (valid_nf_type t ≡ true)
empty_or_valid t h = elim (Bool-cases (t == "")) [
  | inl e ↦ inl ((eq_iff t "").0 e)
  | inr e ↦ inr (ground arith)
]

-- What the check lets through grants only canonical names of the types that a certificate request
-- may add to an order, none of them twice, and no NF type that is not valid; it leaves the CA flag
-- and the expiry of the grant as they are.
pub check_grant-usable :
    (p : Platform) (grant let_through : ValidationGrant)
    (passed : check_grant p grant ≡ granted let_through)
    → AllUsable p let_through.names
      × AllDistinct let_through.names
      × ((let_through.nf_type ≡ "") ⊎ (valid_nf_type let_through.nf_type ≡ true))
      × (let_through.ca_certificate ≡ grant.ca_certificate)
      × (let_through.expires ≡ grant.expires)
unfolding check_grant
check_grant-usable p grant let_through passed =
    elim (Bool-cases (not (grant.nf_type == "") && not (valid_nf_type grant.nf_type))) [
      | inl odd ↦ absurd (ground arith)
      | inr fine ↦ elim (Names-cases (name_loop p [] grant.names)) [
        | inr e ↦ absurd (ground arith)
        | inl (l, e) ↦
            let (u, d) = name_loop-usable p [] grant.names l tt tt e in
            let same : record grant { names = l } ≡ let_through = ground arith in
            subst
              (λ g.
                AllUsable p g.names
                × AllDistinct g.names
                × ((g.nf_type ≡ "") ⊎ (valid_nf_type g.nf_type ≡ true))
                × (g.ca_certificate ≡ grant.ca_certificate)
                × (g.expires ≡ grant.expires))
              same (u, d, empty_or_valid grant.nf_type fine, refl, refl)
      ]
    ]
