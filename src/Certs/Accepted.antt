-- ===== src/Certs/Accepted.antt =====
-- csr.go: what an accepted certificate request has shown.
use go_acme_server.Prelude.{
  ◌≡◌, ◌≢◌, ◌⊎◌, inl, inr, refl, subst, arith, true, false, none, some, List, [], ◌∷◌, Bool-cases,
  Option-cases,
}
use go_acme_server.Platform.{Platform}
use go_acme_server.Problem.{Identifier}
use go_acme_server.Resource.{Bytes, Account, Order}
use go_acme_server.Answer.{Answer-cases, accepted}
use go_acme_server.Certs.{
  PublicKey, CertificateRequest, X509, check_san_extensions, covers_identifiers,
}
use go_acme_server.Certs.Request.{
  check_csr_key, is_slh_dsa, same_bytes, csr_identifiers, check_account_key, check_names, check_key,
  check_parsed, check_csr,
}

same_bytes_self : (a : Bytes) → same_bytes a a ≡ true
same_bytes_self [] = refl
same_bytes_self (n ∷ a) = let e = same_bytes_self a in ground arith

same_bytes-differ : (a b : Bytes) → same_bytes a b ≡ false → a ≢ b
same_bytes-differ a b h e =
    let t : same_bytes a b ≡ true = subst (λ c. same_bytes a c ≡ true) e (same_bytes_self a) in
    ground arith

module _ (x : X509) (p : Platform) where
  -- The key is one that the server issues for, and not the account's.
  abbrev pub HasKey : CertificateRequest → Account → PublicKey → Type 0
  HasKey csr account key =
      (csr.key ≡ some key)
      × (check_csr_key key ≡ none)
      × ((is_slh_dsa key ≡ true)
          ⊎ ((a : Bytes) × (c : Bytes) × (x.marshal_key account.key ≡ some a)
              × (csr.key_der ≡ some c)
              × (c ≢ a)))

  -- Its names are supported and cover the order.
  abbrev pub HasNames : CertificateRequest → List Identifier → List Identifier → Type 0
  HasNames csr order granted =
      (check_san_extensions x p csr.subject.extensions ≡ true)
      × (requested : List Identifier) × (csr_identifiers x p csr.subject ≡ accepted requested)
      × (covers_identifiers requested order granted ≡ true)

  check_account_key-other :
      (csr : CertificateRequest) (key : PublicKey) (account : Account)
      → check_account_key x p csr key account ≡ none
      → (is_slh_dsa key ≡ true)
        ⊎ ((a : Bytes) × (c : Bytes) × (x.marshal_key account.key ≡ some a)
            × (csr.key_der ≡ some c)
            × (c ≢ a))
  unfolding check_account_key
  check_account_key-other csr key account h = elim (Bool-cases (is_slh_dsa key)) [
    | inl e ↦ inl e
    | inr e ↦ elim (Option-cases (x.marshal_key account.key)) [
      | inl k ↦ absurd (ground arith)
      | inr (a, k) ↦ elim (Option-cases csr.key_der) [
        | inl l ↦ absurd (ground arith)
        | inr (c, l) ↦ elim (Bool-cases (same_bytes c a)) [
          | inl q ↦ absurd (ground arith)
          | inr q ↦ inr (a, c, k, l, same_bytes-differ c a q)
        ]
      ]
    ]
  ]

  check_names-HasNames :
      (csr accepted_csr : CertificateRequest) (order granted : List Identifier)
      → check_names x p csr order granted ≡ accepted accepted_csr
      → (csr ≡ accepted_csr) × HasNames csr order granted
  unfolding check_names
  check_names-HasNames csr accepted_csr order granted h =
      elim (Bool-cases (check_san_extensions x p csr.subject.extensions)) [
        | inr e ↦ absurd (ground arith)
        | inl e ↦ elim (Answer-cases (csr_identifiers x p csr.subject)) [
          | inr (q, k) ↦ absurd (ground arith)
          | inl (requested, k) ↦ elim (Bool-cases (covers_identifiers requested order granted)) [
            | inr l ↦ absurd (ground arith)
            | inl l ↦ (ground arith, (e, requested, k, l))
          ]
        ]
      ]

  -- What the request of an accepted DER value is.
  abbrev pub IsAccepted : Bytes → Order → Account → List Identifier → CertificateRequest → Type 0
  IsAccepted der order account granted csr =
      (x.parse_request der ≡ some csr)
      × (csr.is_signed ≡ true)
      × ((key : PublicKey) × HasKey csr account key)
      × HasNames csr order.identifiers granted

  check_parsed-accepted :
      (csr accepted_csr : CertificateRequest) (order : Order) (account : Account)
      (granted : List Identifier)
      → check_parsed x p csr order account granted ≡ accepted accepted_csr
      → (csr ≡ accepted_csr)
        × (csr.is_signed ≡ true)
        × ((key : PublicKey) × HasKey csr account key)
        × HasNames csr order.identifiers granted
  unfolding check_parsed check_key
  check_parsed-accepted csr accepted_csr order account granted h = elim (Bool-cases csr.is_signed) [
    | inr e ↦ absurd (ground arith)
    | inl e ↦ elim (Option-cases csr.key) [
      | inl k ↦ absurd (ground arith)
      | inr (key, k) ↦ elim (Option-cases (check_csr_key key)) [
        | inr (q, l) ↦ absurd (ground arith)
        | inl l ↦ elim (Option-cases (check_account_key x p csr key account)) [
          | inr (q, m) ↦ absurd (ground arith)
          | inl m ↦
              let (same, names) =
                check_names-HasNames csr accepted_csr order.identifiers granted (ground arith) in
              (same, e, (key, (k, l, check_account_key-other csr key account m)), names)
        ]
      ]
    ]
  ]

-- A certificate request that is accepted for an order parses and is signed by its own key. The key
-- is one that the server issues for, and unless it is an SLH-DSA key, not the key of the account.
-- Its names are of supported types and cover the identifiers of the order.
pub check_csr-IsAccepted :
    (x : X509) (p : Platform) (der : Bytes) (order : Order) (account : Account)
    (granted : List Identifier) (csr : CertificateRequest)
    (passed : check_csr x p der order account granted ≡ accepted csr)
    → IsAccepted x p der order account granted csr
unfolding check_csr
check_csr-IsAccepted x p der order account granted csr passed =
    elim (Option-cases (x.parse_request der)) [
      | inl e ↦ absurd (ground arith)
      | inr (parsed, e) ↦
          let (same, signed, key, names) =
            check_parsed-accepted x p parsed csr order account granted (ground arith) in
          subst
            (λ c.
              (x.parse_request der ≡ some c)
              × (c.is_signed ≡ true)
              × ((key : PublicKey) × HasKey x p c account key)
              × HasNames x p c order.identifiers granted)
            same (e, signed, key, names)
    ]
