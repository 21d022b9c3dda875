-- ===== src/Certs/Covering.antt =====
-- csr.go: what it means that the names of a request cover an order.
use go_acme_server.Prelude.{
  ◌≡◌, ◌↔◌, ◌⊎◌, inl, inr, refl, sym, ap, ◌∙◌, subst, arith, Bool, true, false, ◌&&◌, ◌||◌, List,
  [], ◌∷◌,
}
use go_acme_server.Problem.{Identifier, same_identifier, same_identifier_iff}
use go_acme_server.Identifiers.{contains}
use go_acme_server.Certs.{contains_all, within, covers_identifiers}

abbrev pub IsIn : Identifier → List Identifier → Type 0
IsIn id l = contains id l ≡ true

or_true : (a b : Bool) → (a || b) ≡ true → (a ≡ true) ⊎ (b ≡ true)
or_true true b h = inl refl
or_true false b h = inr h

or_left : (a b : Bool) → a ≡ true → (a || b) ≡ true
or_left true b h = refl
or_left false b h = absurd (ground arith)

or_right : (a b : Bool) → b ≡ true → (a || b) ≡ true
or_right true b h = refl
or_right false b h = h

and_true : (a b : Bool) → (a && b) ≡ true → (a ≡ true) × (b ≡ true)
and_true a b h = (ground arith, ground arith)

and_intro : (a b : Bool) → a ≡ true → b ≡ true → (a && b) ≡ true
and_intro a b h k = ground arith

-- A test that holds of each element of a list, one by one.
abbrev pub holds_all : (Identifier → Bool) → List Identifier → Bool
holds_all test [] = true
holds_all test (id ∷ ids) = test id && holds_all test ids

holds_all_iff :
    (test : Identifier → Bool) (l : List Identifier)
    → (holds_all test l ≡ true) ↔ ((id : Identifier) → IsIn id l → test id ≡ true)
holds_all_iff test [] = (λ h id k. absurd (ground arith), λ h. refl)
holds_all_iff test (x ∷ l) = (
  λ h id k.
      let (f, r) = and_true (test x) (holds_all test l) h in
      elim (or_true (same_identifier x id) (contains id l) k) [
        | inl e ↦ subst (λ y. test y ≡ true) ((same_identifier_iff x id).0 e) f
        | inr e ↦ (holds_all_iff test l).0 r id e
      ],
  λ h.
      and_intro (test x) (holds_all test l)
        (h x (or_left (same_identifier x x) (contains x l) ((same_identifier_iff x x).1 refl)))
        ((holds_all_iff test l).1
          (λ id k. h id (or_right (same_identifier x id) (contains id l) k))),
)

contains_all-holds :
    (names l : List Identifier) → contains_all names l ≡ holds_all (λ id. contains id names) l
contains_all-holds names [] = refl
contains_all-holds names (x ∷ l) = ap (λ b. contains x names && b) (contains_all-holds names l)

within-holds :
    (order granted l : List Identifier)
    → within order granted l ≡ holds_all (λ id. contains id order || contains id granted) l
within-holds order granted [] = refl
within-holds order granted (x ∷ l) =
    ap (λ b. (contains x order || contains x granted) && b) (within-holds order granted l)

-- Names cover an order exactly when every identifier of the order is among them, and each of them
-- is one of the order's or one that an authority token granted.
pub covers_identifiers_iff :
    (names order granted : List Identifier)
    → (covers_identifiers names order granted ≡ true) ↔ (
        ((id : Identifier) → IsIn id order → IsIn id names)
        × ((id : Identifier) → IsIn id names → IsIn id order ⊎ IsIn id granted))
unfolding covers_identifiers
covers_identifiers_iff names order granted = (
  λ h.
      let (a, b) = and_true (contains_all names order) (within order granted names) h in
      (
        (holds_all_iff (λ id. contains id names) order).0
            (sym (contains_all-holds names order) ∙ a),
        λ id k. or_true (contains id order) (contains id granted) (
            (holds_all_iff (λ i. contains i order || contains i granted) names).0
              (sym (within-holds order granted names) ∙ b) id k),
      ),
  λ (all, only).
      and_intro (contains_all names order) (within order granted names)
        (contains_all-holds names order ∙ (holds_all_iff (λ id. contains id names) order).1 all)
        (within-holds order granted names
          ∙ (holds_all_iff (λ i. contains i order || contains i granted) names).1 (λ id k.
              elim (only id k) [
                | inl e ↦ or_left (contains id order) (contains id granted) e
                | inr e ↦ or_right (contains id order) (contains id granted) e
              ])),
)
