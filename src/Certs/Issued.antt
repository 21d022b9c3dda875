-- ===== src/Certs/Issued.antt =====
-- chain.go: what a chain that may be published has shown.
use go_acme_server.Prelude.{
  ℕ, ◌+◌, ◌≡◌, ◌≤◌, ◌<◌, ◌⊎◌, inl, inr, refl, subst, ◌∙◌, arith, Bool, true, false, none, some,
  List, [], ◌∷◌, Bool-cases, Option-cases,
}
use go_acme_server.Platform.{Platform}
use go_acme_server.Problem.{tn_auth_list, Identifier}
use go_acme_server.Resource.{Bytes, Time, Order}
use go_acme_server.Renewal.{truncate_second}
use go_acme_server.Worker.Evidence.{grant_bound, issued_not_after}
use go_acme_server.Certs.{
  CertificateRequest, Leaf, X509, Found, found, unacceptable, csr_ca_certificate, has_type,
  covers_identifiers,
}
use go_acme_server.Certs.Request.{same_bytes}
use go_acme_server.Certs.Chain.{
  Chained, good_chain, bad_chain, bad_constraints, bad_element, unsigned_element, Parsed, parsed,
  unparsed, same_flag, certificate_identifiers, issuance_names, check_leaf_ca, parse_chain,
  check_links, check_validity, leaf_covers, check_signatures, check_leaf, check_chain,
}

pub Found-cases : {A : Type 0} (r : Found A) → ((a : A) × (r ≡ found a)) ⊎ (r ≡ unacceptable)
Found-cases (found a) = inl (a, refl)
Found-cases unacceptable = inr refl

Chained-cases :
    (r : Chained) → ((l : Leaf) × (r ≡ good_chain l)) ⊎ ((l : Leaf) → r ≡ good_chain l → ⊥)
Chained-cases (good_chain l) = inl (l, refl)
Chained-cases (bad_chain e) = inr (λ l h. ground arith)
Chained-cases bad_constraints = inr (λ l h. ground arith)
Chained-cases (bad_element i) = inr (λ l h. ground arith)
Chained-cases (unsigned_element i) = inr (λ l h. ground arith)

Parsed-cases : (r : Parsed) → ((l : List Leaf) × (r ≡ parsed l)) ⊎ ((i : ℕ) × (r ≡ unparsed i))
Parsed-cases (parsed l) = inl (l, refl)
Parsed-cases (unparsed i) = inr (i, refl)

module _ (x : X509) (p : Platform) where
  -- Each certificate is signed by the next.
  abbrev pub AllSigned : List Leaf → Type 0
  AllSigned [] = Unit
  AllSigned (cert ∷ []) = Unit
  AllSigned (cert ∷ parent ∷ certs) =
      (x.is_signed_by cert parent ≡ true) × AllSigned (parent ∷ certs)

  -- The elements of the chain, parsed.
  abbrev pub AreParsed : List Bytes → List Leaf → Type 0
  AreParsed [] [] = Unit
  AreParsed (der ∷ ders) (cert ∷ certs) =
      (x.parse_certificate der ≡ some cert) × AreParsed ders certs
  AreParsed _ _ = ⊥

  check_links-AllSigned :
      (i : ℕ) (certs : List Leaf) → check_links x p i certs ≡ none → AllSigned certs
  unfolding check_links
  check_links-AllSigned i [] h = tt
  check_links-AllSigned i (cert ∷ []) h = tt
  check_links-AllSigned i (cert ∷ parent ∷ certs) h =
      elim (Bool-cases (x.is_signed_by cert parent)) [
        | inr e ↦ absurd (ground arith)
        | inl e ↦ (e, check_links-AllSigned (i + 1) (parent ∷ certs) (ground arith))
      ]

  parse_chain-AreParsed :
      (i : ℕ) (ders : List Bytes) (certs : List Leaf)
      → parse_chain x p i ders ≡ parsed certs
      → AreParsed ders certs
  unfolding parse_chain
  parse_chain-AreParsed i [] [] h = tt
  parse_chain-AreParsed i [] (cert ∷ certs) h = absurd (ground arith)
  parse_chain-AreParsed i (der ∷ ders) certs h = elim (Option-cases (x.parse_certificate der)) [
    | inl e ↦ absurd (ground arith)
    | inr (cert, e) ↦ elim (Parsed-cases (parse_chain x p (i + 1) ders)) [
      | inr (j, k) ↦ absurd (ground arith)
      | inl (more, k) ↦
          let r = parse_chain-AreParsed (i + 1) ders more k in
          let same : cert ∷ more ≡ certs = ground arith in
          subst (λ l. AreParsed (der ∷ ders) l) same (e, r)
    ]
  ]

  -- The validity of a leaf lies in the window of the order, and no grant ends before it.
  abbrev pub IsValidAt : Leaf → Order → Time → Type 0
  IsValidAt leaf order now =
      (now < leaf.not_after)
      × (leaf.not_before < leaf.not_after)
      × (truncate_second order.not_before ≤ leaf.not_before)
      × ((leaf.not_before ≤ now) ⊎ (leaf.not_before ≤ truncate_second order.not_before))
      × ((grant_bound order.issuance ≡ 0) ⊎ (leaf.not_after ≤ grant_bound order.issuance))
      × ((issued_not_after order ≡ 0) ⊎ (leaf.not_after ≤ truncate_second (issued_not_after order)))

  check_validity-IsValidAt :
      (leaf : Leaf) (order : Order) (now : Time)
      → check_validity x p leaf order now ≡ none
      → IsValidAt leaf order now
  unfolding check_validity
  check_validity-IsValidAt leaf order now h =
      let start = truncate_second order.not_before in
      let bound = grant_bound order.issuance in
      let requested = issued_not_after order in
      (ground arith, ground arith, ground arith, ground arith, ground arith, ground arith)

  -- The leaf is a CA certificate only where its order has a TNAuthList and its request asks for one.
  abbrev pub HasConstraint : Leaf → CertificateRequest → Order → Type 0
  HasConstraint leaf csr order =
      ((has_type x p tn_auth_list order.identifiers ≡ false) × (leaf.is_ca ≡ false))
      ⊎ ((has_type x p tn_auth_list order.identifiers ≡ true)
          × (csr_ca_certificate x p csr.subject.extensions ≡ found leaf.is_ca))

  same_flag-eq : (a b : Bool) → same_flag a b ≡ true → b ≡ a
  same_flag-eq a b h = ground arith

  check_leaf_ca-HasConstraint :
      (leaf good : Leaf) (csr : CertificateRequest) (order : Order)
      → check_leaf_ca x p leaf csr order ≡ good_chain good
      → (leaf ≡ good) × HasConstraint leaf csr order
  unfolding check_leaf_ca
  check_leaf_ca-HasConstraint leaf good csr order h =
      elim (Bool-cases (has_type x p tn_auth_list order.identifiers)) [
        | inr e ↦ elim (Bool-cases leaf.is_ca) [
          | inl k ↦ absurd (ground arith)
          | inr k ↦ (ground arith, inl (e, k))
        ]
        | inl e ↦ elim (Found-cases (csr_ca_certificate x p csr.subject.extensions)) [
          | inr k ↦ absurd (ground arith)
          | inl (requested, k) ↦ elim (Bool-cases (same_flag leaf.is_ca requested)) [
            | inr l ↦ absurd (ground arith)
            | inl l ↦
                let same = same_flag-eq leaf.is_ca requested l in
                (ground arith, inr (e, ground arith))
          ]
        ]
      ]

  leaf_covers-found :
      (leaf : Leaf) (order : Order)
      → leaf_covers x p leaf order ≡ true
      → (ids : List Identifier) × (certificate_identifiers x p leaf.subject ≡ found ids)
        × (covers_identifiers ids order.identifiers (issuance_names x p order.issuance) ≡ true)
  unfolding leaf_covers
  leaf_covers-found leaf order h = elim (Found-cases (certificate_identifiers x p leaf.subject)) [
    | inr k ↦ absurd (ground arith)
    | inl (ids, k) ↦ (ids, k, ground arith)
  ]

  same_bytes-eq : (a b : Bytes) → same_bytes a b ≡ true → a ≡ b
  same_bytes-eq [] [] h = refl
  same_bytes-eq [] (n ∷ b) h = absurd (ground arith)
  same_bytes-eq (n ∷ a) [] h = absurd (ground arith)
  same_bytes-eq (n ∷ a) (m ∷ b) h = let e = same_bytes-eq a b (ground arith) in ground arith

  -- What a certificate that may be published has.
  abbrev pub IsPublishable : List Bytes → CertificateRequest → Order → Time → Leaf → Type 0
  IsPublishable chain csr order now leaf =
      ((certs : List Leaf) × AreParsed chain (leaf ∷ certs) × AllSigned (leaf ∷ certs))
      × (leaf.spki ≡ csr.spki)
      × IsValidAt leaf order now
      × ((ids : List Identifier) × (certificate_identifiers x p leaf.subject ≡ found ids)
          × (covers_identifiers ids order.identifiers (issuance_names x p order.issuance) ≡ true))
      × HasConstraint leaf csr order

  passed_ca :
      (good : Leaf) (certs : List Leaf) (r : Chained)
      → check_signatures x p certs r ≡ good_chain good
      → r ≡ good_chain good
  unfolding check_signatures
  passed_ca good certs (good_chain l) h = elim (Option-cases (check_links x p 0 certs)) [
    | inr (i, q) ↦ absurd (ground arith)
    | inl q ↦ ground arith
  ]
  passed_ca good certs (bad_chain e) h = h
  passed_ca good certs bad_constraints h = h
  passed_ca good certs (bad_element i) h = h
  passed_ca good certs (unsigned_element i) h = h

  check_leaf-good :
      (leaf good : Leaf) (certs : List Leaf) (csr : CertificateRequest) (order : Order) (now : Time)
      → check_leaf x p leaf certs csr order now ≡ good_chain good
      → (leaf ≡ good)
        × AllSigned (leaf ∷ certs)
        × (leaf.spki ≡ csr.spki)
        × IsValidAt leaf order now
        × ((ids : List Identifier) × (certificate_identifiers x p leaf.subject ≡ found ids)
            × (covers_identifiers ids order.identifiers (issuance_names x p order.issuance) ≡ true))
        × HasConstraint leaf csr order
  unfolding check_leaf check_signatures
  check_leaf-good leaf good certs csr order now h =
      elim (Bool-cases (same_bytes leaf.spki csr.spki)) [
        | inr e ↦ absurd (ground arith)
        | inl e ↦ elim (Option-cases (check_validity x p leaf order now)) [
          | inr (t, k) ↦ absurd (ground arith)
          | inl k ↦ elim (Bool-cases (leaf_covers x p leaf order)) [
            | inr l ↦ absurd (ground arith)
            | inl l ↦ elim (Chained-cases (check_leaf_ca x p leaf csr order)) [
              | inr bad ↦ absurd (
                  bad good (
                    passed_ca good (leaf ∷ certs) (check_leaf_ca x p leaf csr order)
                      (ground arith)))
              | inl (m, n) ↦ elim (Option-cases (check_links x p 0 (leaf ∷ certs))) [
                | inr (i, q) ↦ absurd (ground arith)
                | inl q ↦
                    let (same, ca) = check_leaf_ca-HasConstraint leaf m csr order n in
                    let rest : m ≡ good = ground arith in
                    (
                      same ∙ rest,
                      check_links-AllSigned 0 (leaf ∷ certs) q,
                      same_bytes-eq leaf.spki csr.spki e,
                      check_validity-IsValidAt leaf order now k,
                      leaf_covers-found leaf order l,
                      ca,
                    )
              ]
            ]
          ]
        ]
      ]

-- A chain that is accepted for an order parses, each of its certificates is signed by the next, and
-- its first one is the leaf: it has the key of the request, it is valid now or from the start that
-- the order asked for, within the window of the order and the grants behind it, its identities cover
-- those of the order, and it is a CA certificate only where the order and the request are for one.
pub check_chain-IsPublishable :
    (x : X509) (p : Platform) (chain : List Bytes) (csr : CertificateRequest) (order : Order)
    (now : Time) (leaf : Leaf) (passed : check_chain x p chain csr order now ≡ good_chain leaf)
    → IsPublishable x p chain csr order now leaf
unfolding check_chain
check_chain-IsPublishable x p chain csr order now leaf passed =
    elim (Parsed-cases (parse_chain x p 0 chain)) [
      | inr (i, e) ↦ absurd (ground arith)
      | inl ([], e) ↦ absurd (ground arith)
      | inl (first ∷ certs, e) ↦
          let (same, signed, spki, valid, covers, ca) =
            check_leaf-good x p first leaf certs csr order now (ground arith) in
          subst (λ l. IsPublishable x p chain csr order now l) same
            (
              (certs, parse_chain-AreParsed x p 0 chain (first ∷ certs) e, signed),
              spki,
              valid,
              covers,
              ca,
            )
    ]
