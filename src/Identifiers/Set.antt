-- ===== src/Identifiers/Set.antt =====
-- identifier.go: the result of `NormalizeIdentifiers`.
use go_acme_server.Prelude.{
  ap, ◌+◌, ◌≡◌, ◌≢◌, refl, sym, ◌∙◌, subst, Bool, true, false, ◌||◌, arith, List, [], ◌∷◌, ◌++◌,
  length, Bool-cases, inl, inr, ◌⊎◌, String,
}
use go_acme_server.Platform.{Platform}
use go_acme_server.Problem.{
  IdentifierType, dns, ip, tn_auth_list, nf_instance_id, uri, other, Identifier, Problem, is_type,
  same_identifier, same_identifier_iff,
}
use go_acme_server.Identifiers.{
  Normalized, canonical, invalid, normalize, contains, all_canonical, normalize_loop,
  normalize_identifiers,
}
use go_acme_server.Identifiers.Canonical.{
  IsDocumented, normalize_dns-canonical, normalize_nf-canonical, normalize_ip-canonical,
  normalize_tn-canonical,
}

module _ (p : Platform) (go : IsDocumented p) where
  by_kind :
      (kind : IdentifierType) (value : String) (n : Identifier)
      → is_type kind uri ≡ false
      → normalize p (record { kind = kind; value = value }) ≡ canonical n
      → normalize p n ≡ canonical n
  unfolding normalize
  by_kind dns value n u h = let (k, e) = normalize_dns-canonical p value n h in ground arith
  by_kind ip value n u h = let (k, e) = normalize_ip-canonical p go value n h in ground arith
  by_kind tn_auth_list value n u h = let (k, e) = normalize_tn-canonical p value n h in ground arith
  by_kind nf_instance_id value n u h =
      let (k, e) = normalize_nf-canonical p go value n h in ground arith
  by_kind uri value n u h = absurd (ground arith)
  by_kind (other t) value n u h = absurd (ground arith)

  normalize_fixed :
      (id n : Identifier)
      → is_type id.kind uri ≡ false
      → normalize p id ≡ canonical n
      → normalize p n ≡ canonical n
  normalize_fixed id n u h = by_kind id.kind id.value n u h

-- No identifier of the list is a URI, which no order may ask for.
abbrev pub HasNoUri : List Identifier → Type 0
HasNoUri [] = Unit
HasNoUri (id ∷ ids) = (is_type id.kind uri ≡ false) × HasNoUri ids

-- Each identifier is its own canonical form.
abbrev pub AllFixed : Platform → List Identifier → Type 0
AllFixed p [] = Unit
AllFixed p (id ∷ ids) = (normalize p id ≡ canonical id) × AllFixed p ids

-- No identifier stands in the list twice.
abbrev pub AllDistinct : List Identifier → Type 0
AllDistinct [] = Unit
AllDistinct (id ∷ ids) = (contains id ids ≡ false) × AllDistinct ids

AllFixed-snoc :
    (p : Platform) (l : List Identifier) (n : Identifier)
    → AllFixed p l
    → normalize p n ≡ canonical n
    → AllFixed p (l ++ (n ∷ []))
AllFixed-snoc p [] n h e = (e, tt)
AllFixed-snoc p (x ∷ l) n (f, h) e = (f, AllFixed-snoc p l n h e)

true-ne-false : true ≢ false
true-ne-false e = ground arith

or_false : (a b : Bool) → a ≡ false → b ≡ false → (a || b) ≡ false
or_false a b h k = ground arith

false_or : (a b : Bool) → (a || b) ≡ false → (a ≡ false) × (b ≡ false)
false_or a b h = (ground arith, ground arith)

same_identifier-flip :
    (x n : Identifier) → same_identifier x n ≡ false → same_identifier n x ≡ false
same_identifier-flip x n h = elim (Bool-cases (same_identifier n x)) [
  | inr e ↦ e
  | inl e ↦
      let same = (same_identifier_iff n x).0 e in
      let back = (same_identifier_iff x n).1 (sym same) in absurd (true-ne-false (sym back ∙ h))
]

contains-snoc :
    (x : Identifier) (l : List Identifier) (n : Identifier)
    → contains x l ≡ false
    → same_identifier n x ≡ false
    → contains x (l ++ (n ∷ [])) ≡ false
contains-snoc x [] n h e = or_false (same_identifier n x) false e refl
contains-snoc x (y ∷ l) n h e =
    let (f, g) = false_or (same_identifier y x) (contains x l) h in
    or_false (same_identifier y x) (contains x (l ++ (n ∷ []))) f (contains-snoc x l n g e)

pub AllDistinct-snoc :
    (l : List Identifier) (n : Identifier)
    → AllDistinct l
    → contains n l ≡ false
    → AllDistinct (l ++ (n ∷ []))
AllDistinct-snoc [] n h e = (refl, tt)
AllDistinct-snoc (x ∷ l) n (f, h) e =
    let (g, k) = false_or (same_identifier x n) (contains n l) e in
    (contains-snoc x l n f (same_identifier-flip x n g), AllDistinct-snoc l n h k)

length-snoc : (l : List Identifier) (n : Identifier) → length (l ++ (n ∷ [])) ≡ length l + 1
length-snoc [] n = refl
length-snoc (x ∷ l) n = let e = length-snoc l n in ground arith

pub Normalized-cases :
    (r : Normalized) → ((n : Identifier) × (r ≡ canonical n)) ⊎ ((q : Problem) × (r ≡ invalid q))
Normalized-cases (canonical n) = inl (n, refl)
Normalized-cases (invalid q) = inr (q, refl)

-- Each identifier in its canonical form, in their order.
abbrev pub AreNormalized : Platform → List Identifier → List Identifier → Type 0
AreNormalized p [] [] = Unit
AreNormalized p (id ∷ ids) (n ∷ ns) = (normalize p id ≡ canonical n) × AreNormalized p ids ns
AreNormalized p _ _ = ⊥

snoc-append : (l m : List Identifier) (n : Identifier) → (l ++ (n ∷ [])) ++ m ≡ l ++ (n ∷ m)
snoc-append [] m n = refl
snoc-append (x ∷ l) m n = ap (λ r. x ∷ r) (snoc-append l m n)

append_nil : (l : List Identifier) → l ++ [] ≡ l
append_nil [] = refl
append_nil (x ∷ l) = ap (λ r. x ∷ r) (append_nil l)

normalize_loop-AreNormalized :
    (p : Platform) (seen ids out : List Identifier)
    → normalize_loop p seen ids ≡ all_canonical out
    → (more : List Identifier) × (out ≡ seen ++ more) × AreNormalized p ids more
unfolding normalize_loop
normalize_loop-AreNormalized p seen [] out h =
    let same : out ≡ seen = ground arith in ([], same ∙ sym (append_nil seen), tt)
normalize_loop-AreNormalized p seen (id ∷ ids) out h = elim (Normalized-cases (normalize p id)) [
  | inr (q, e) ↦ absurd (ground arith)
  | inl (n, e) ↦ elim (Bool-cases (contains n seen)) [
    | inl twice ↦ absurd (ground arith)
    | inr fresh ↦
        let (more, same, rest) =
          normalize_loop-AreNormalized p (seen ++ (n ∷ [])) ids out (ground arith) in
        (n ∷ more, same ∙ snoc-append seen more n, (e, rest))
  ]
]

module _ (p : Platform) (go : IsDocumented p) where
  normalize_loop_sound :
      (seen ids out : List Identifier)
      → HasNoUri ids
      → AllFixed p seen
      → AllDistinct seen
      → normalize_loop p seen ids ≡ all_canonical out
      → AllFixed p out × AllDistinct out × (length out ≡ length seen + length ids)
  unfolding normalize_loop
  normalize_loop_sound seen [] out u f d h =
      let same : seen ≡ out = ground arith in
      subst (λ l. AllFixed p l × AllDistinct l × (length l ≡ length seen + 0)) same
        (f, d, omega arith)
  normalize_loop_sound seen (id ∷ ids) out (u, us) f d h =
      elim (Normalized-cases (normalize p id)) [
        | inr (q, e) ↦ absurd (ground arith)
        | inl (n, e) ↦ elim (Bool-cases (contains n seen)) [
          | inl twice ↦ absurd (ground arith)
          | inr fresh ↦
              let (f', d', m) =
                normalize_loop_sound (seen ++ (n ∷ [])) ids out us
                  (AllFixed-snoc p seen n f (normalize_fixed p go id n u e))
                  (AllDistinct-snoc seen n d fresh) (ground arith) in
              let k = length-snoc seen n in (f', d', omega arith)
        ]
      ]

-- Where the identifiers that a client lists are accepted, none of them a URI: the result is the
-- canonical form of each, in their order, none twice, and each is its own canonical form, so that
-- normalizing it again changes nothing.
pub normalize_identifiers-AllFixed :
    (p : Platform) (go : IsDocumented p) (ids out : List Identifier) (no_uri : HasNoUri ids)
    (accepted : normalize_identifiers p ids ≡ all_canonical out)
    → AllFixed p out × AllDistinct out × (length out ≡ length ids) × AreNormalized p ids out
unfolding normalize_identifiers
normalize_identifiers-AllFixed p go ids out no_uri accepted =
    let (f, d, n) = normalize_loop_sound p go [] ids out no_uri tt tt accepted in
    let (more, same, each) = normalize_loop-AreNormalized p [] ids out accepted in
    (f, d, omega arith, subst (λ l. AreNormalized p ids l) (sym same) each)
