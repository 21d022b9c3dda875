-- ===== src/Accounts/KeyChange.antt =====
-- account.go: the change of an account's key. The lookup behind the Location header that a conflict
-- is answered with is left out.
use go_acme_server.Prelude.{
  ◌≡◌, ◌≢◌, ◌⊎◌, inl, inr, refl, sym, ap, ◌∙◌, arith, eq_iff, not, String, ◌==◌, Option, none, some,
  List, if◌then◌else◌, concat, Bool-cases, Option-cases,
}
use go_acme_server.Problem.{Problem, new_problem, malformed, bad_public_key}
use go_acme_server.Resource.{Bytes, Account}
use go_acme_server.Server.{Server, Run, pure, ◌>>=◌}
use go_acme_server.Answer.{Answer, Answer-cases, accepted, refused, then_with}
use go_acme_server.Requests.{
  code_bad_nonce, code_bad_signature_algorithm, code_bad_public_key, code_bad_signature,
  code_malformed, code_other, no_code, JwsError, Request, problem_from_jws,
}
use go_acme_server.Wire.{Payload, decode_payload, AccountView, account_view, account_url, url_of}
use go_acme_server.Orders.Deactivate.{update_owned_account}
use go_acme_server.Orders.Serve.{Wire, read_account_request}

-- The inner JWS: its header, its payload and the answer of `Verify` under a key.
pub record Inner : Type 0 where
  pub url : String
  pub key : Bytes
  pub payload : Bytes
  pub verify : Bytes → Option JwsError

pub data ParsedInner : Type 0 where
  inner : Inner → ParsedInner
  bad_inner : JwsError → ParsedInner

-- `keyChangeJSON`
pub record KeyChange : Type 0 where
  pub account : String
  pub old_key : Bytes

pub data ParsedKey : Type 0 where
  parsed_key : Bytes → ParsedKey
  -- The text of the error.
  bad_key : String → ParsedKey

-- What the parsers of internal/jws make of a key change, and the thumbprint of a key.
pub record InnerJws : Type 0 where
  pub parse_inner : Bytes → ParsedInner
  pub key_change : Bytes → Payload KeyChange
  pub parse_jwk : Bytes → ParsedKey
  pub thumbprint : Bytes → Option String

abbrev pub detail_of : JwsError → String
detail_of e = elim e.code [
  | no_code ↦ "invalid JWS"
  | code_bad_nonce ↦ e.detail
  | code_bad_signature_algorithm ↦ e.detail
  | code_bad_public_key ↦ e.detail
  | code_bad_signature ↦ e.detail
  | code_malformed ↦ e.detail
  | code_other ↦ e.detail
]

-- `innerProblem`
unfoldable pub inner_problem : List String → JwsError → Problem
unfolding problem_from_jws
inner_problem algorithms e =
    let other = new_problem malformed (concat "inner JWS: " (detail_of e)) in
    elim e.code [
      | code_bad_signature_algorithm ↦ problem_from_jws algorithms e
      | code_bad_public_key ↦ problem_from_jws algorithms e
      | code_bad_nonce ↦ other
      | code_bad_signature ↦ other
      | code_malformed ↦ other
      | code_other ↦ other
      | no_code ↦ other
    ]

abbrev pub bad_change : {A : Type 0} → String → Answer A
bad_change detail = refused (new_problem malformed detail)

module _ (s : Server) (wire : Wire) (jws : InnerJws) where
  -- The thumbprint of the key that the payload names as the old one.
  unfoldable pub old_thumbprint : Account → Bytes → Answer String
  old_thumbprint account old_key = elim (jws.parse_jwk old_key) [
    | bad_key e ↦ bad_change (concat "inner JWS oldKey: " e)
    | parsed_key key ↦ elim (jws.thumbprint key) [
      | none ↦ bad_change "inner JWS oldKey is not the current account key"
      | some t ↦
          if not (t == account.key_thumbprint)
          then bad_change "inner JWS oldKey is not the current account key"
          else accepted t
    ]
  ]

  -- The thumbprint of the new key, which is another one.
  unfoldable pub new_thumbprint : Bytes → String → Answer String
  new_thumbprint key old = elim (jws.thumbprint key) [
    | none ↦ refused (new_problem bad_public_key "new key cannot be thumbprinted")
    | some t ↦ if t == old then bad_change "new key is the current account key" else accepted t
  ]

  abbrev pub with_key : Account → Bytes → String → Account
  with_key account key thumbprint = record account { key = key; key_thumbprint = thumbprint }

  -- The checks of the payload, and the account with its new key.
  unfoldable pub changed_account : Account → Inner → KeyChange → Answer Account
  unfolding old_thumbprint new_thumbprint
  changed_account account i payload =
      if not (payload.account == account_url s account.id)
      then bad_change "inner JWS account does not match the signing account"
      else elim (old_thumbprint account payload.old_key) [
        | refused p ↦ refused p
        | accepted old ↦ elim (new_thumbprint i.key old) [
          | refused p ↦ refused p
          | accepted new ↦ accepted (with_key account i.key new)
        ]
      ]

  -- The checks of the inner JWS.
  unfoldable pub check_inner : Account → Inner → Answer Account
  unfolding inner_problem decode_payload changed_account
  check_inner account i =
      if not (i.url == url_of s "key-change")
      then bad_change "inner JWS url does not match the outer JWS url"
      else elim (i.verify i.key) [
        | some e ↦ refused (inner_problem wire.algorithms e)
        | none ↦ elim (decode_payload (jws.key_change i.payload)) [
          | refused p ↦ refused p
          | accepted payload ↦ changed_account account i payload
        ]
      ]

  unfoldable pub check_change : Account → Bytes → Answer Account
  unfolding inner_problem check_inner
  check_change account body = elim (jws.parse_inner body) [
    | bad_inner e ↦ refused (inner_problem wire.algorithms e)
    | inner i ↦ check_inner account i
  ]

  -- `serveKeyChange`
  unfoldable pub serve_key_change : Request → Run (Answer AccountView)
  unfolding read_account_request check_change update_owned_account account_view
  serve_key_change r = do
    read ← read_account_request s wire r "key-change"
    then_with read λ (signed, account). then_with (check_change account signed.payload) λ changed.
        do
          stored ← update_owned_account s changed
          then_with stored λ a. pure (accepted (account_view s a))

ParsedInner-cases :
    (r : ParsedInner) → ((i : Inner) × (r ≡ inner i)) ⊎ ((e : JwsError) × (r ≡ bad_inner e))
ParsedInner-cases (inner i) = inl (i, refl)
ParsedInner-cases (bad_inner e) = inr (e, refl)

ParsedKey-cases :
    (r : ParsedKey) → ((k : Bytes) × (r ≡ parsed_key k)) ⊎ ((e : String) × (r ≡ bad_key e))
ParsedKey-cases (parsed_key k) = inl (k, refl)
ParsedKey-cases (bad_key e) = inr (e, refl)

module _ (s : Server) (wire : Wire) (jws : InnerJws) where
  -- The inner JWS is for this resource and signed by the new key, its payload names the account and
  -- its present key, and the account differs only in its key, which is another one.
  abbrev pub IsKeyChange : Account → Bytes → Account → Type 0
  IsKeyChange account body changed =
      (i : Inner) × (payload : KeyChange) × (old : Bytes) × (jws.parse_inner body ≡ inner i)
      × (i.url ≡ url_of s "key-change")
      × (i.verify i.key ≡ none)
      × (decode_payload (jws.key_change i.payload) ≡ accepted payload)
      × (payload.account ≡ account_url s account.id)
      × (jws.parse_jwk payload.old_key ≡ parsed_key old)
      × (jws.thumbprint old ≡ some account.key_thumbprint)
      × (jws.thumbprint i.key ≡ some changed.key_thumbprint)
      × (changed.key_thumbprint ≢ account.key_thumbprint)
      × (changed ≡ record account { key = i.key; key_thumbprint = changed.key_thumbprint })

  old_thumbprint-current :
      (account : Account) (old_key : Bytes) (t : String)
      → old_thumbprint s wire jws account old_key ≡ accepted t
      → (old : Bytes) × (jws.parse_jwk old_key ≡ parsed_key old)
        × (jws.thumbprint old ≡ some account.key_thumbprint)
        × (t ≡ account.key_thumbprint)
  unfolding old_thumbprint
  old_thumbprint-current account old_key t h = elim (ParsedKey-cases (jws.parse_jwk old_key)) [
    | inr (e, k) ↦ absurd (ground arith)
    | inl (old, k) ↦ elim (Option-cases (jws.thumbprint old)) [
      | inl e ↦ absurd (ground arith)
      | inr (u, e) ↦ elim (Bool-cases (u == account.key_thumbprint)) [
        | inr q ↦ absurd (ground arith)
        | inl q ↦
            let same = (eq_iff u account.key_thumbprint).0 q in (old, k, ground arith, ground arith)
      ]
    ]
  ]

  new_thumbprint-other :
      (key : Bytes) (old t : String)
      → new_thumbprint s wire jws key old ≡ accepted t
      → (jws.thumbprint key ≡ some t) × (t ≢ old)
  unfolding new_thumbprint
  new_thumbprint-other key old t h = elim (Option-cases (jws.thumbprint key)) [
    | inl e ↦ absurd (ground arith)
    | inr (u, e) ↦ elim (Bool-cases (u == old)) [
      | inl q ↦ absurd (ground arith)
      | inr q ↦ (ground arith, λ same. ground (arith, eq_iff u old))
    ]
  ]

  changed_account-changed :
      (account changed : Account) (i : Inner) (payload : KeyChange)
      → changed_account s wire jws account i payload ≡ accepted changed
      → (old : Bytes) × (payload.account ≡ account_url s account.id)
        × (jws.parse_jwk payload.old_key ≡ parsed_key old)
        × (jws.thumbprint old ≡ some account.key_thumbprint)
        × (jws.thumbprint i.key ≡ some changed.key_thumbprint)
        × (changed.key_thumbprint ≢ account.key_thumbprint)
        × (changed ≡ record account { key = i.key; key_thumbprint = changed.key_thumbprint })
  unfolding changed_account
  changed_account-changed account changed i payload h =
      elim (Bool-cases (payload.account == account_url s account.id)) [
        | inr e ↦ absurd (ground arith)
        | inl e ↦ elim (Answer-cases (old_thumbprint s wire jws account payload.old_key)) [
          | inr (q, k) ↦ absurd (ground arith)
          | inl (t, k) ↦ elim (Answer-cases (new_thumbprint s wire jws i.key t)) [
            | inr (q, l) ↦ absurd (ground arith)
            | inl (new, l) ↦
                let (old, a, b, c) = old_thumbprint-current account payload.old_key t k in
                let (d, f) = new_thumbprint-other i.key t new l in
                let same : record account { key = i.key; key_thumbprint = new } ≡ changed =
                  ground arith in
                let print : new ≡ changed.key_thumbprint = ap (λ z. z.key_thumbprint) same in
                (
                  old,
                  (eq_iff payload.account (account_url s account.id)).0 e,
                  a,
                  b,
                  d ∙ ap some print,
                  λ q. f (print ∙ q ∙ sym c),
                  sym same ∙ ap (λ z. record account { key = i.key; key_thumbprint = z }) print,
                )
          ]
        ]
      ]

  check_inner-IsKeyChange :
      (account changed : Account) (body : Bytes) (i : Inner)
      → jws.parse_inner body ≡ inner i
      → check_inner s wire jws account i ≡ accepted changed
      → IsKeyChange account body changed
  unfolding check_inner
  check_inner-IsKeyChange account changed body i parsed h =
      elim (Bool-cases (i.url == url_of s "key-change")) [
        | inr e ↦ absurd (ground arith)
        | inl e ↦ elim (Option-cases (i.verify i.key)) [
          | inr (q, k) ↦ absurd (ground arith)
          | inl k ↦ elim (Answer-cases (decode_payload (jws.key_change i.payload))) [
            | inr (q, l) ↦ absurd (ground arith)
            | inl (payload, l) ↦
                let (old, a, b, c, d, f, g) =
                  changed_account-changed account changed i payload (ground arith) in
                (
                  i,
                  payload,
                  old,
                  parsed,
                  (eq_iff i.url (url_of s "key-change")).0 e,
                  k,
                  l,
                  a,
                  b,
                  c,
                  d,
                  f,
                  g,
                )
          ]
        ]
      ]

-- A key change is accepted only where its inner JWS is for the key-change resource, is signed by the
-- new key, and names the account and the key that the account has; the new key has another
-- thumbprint, and the account that is then stored differs from the present one in nothing but it.
pub check_change-IsKeyChange :
    (s : Server) (wire : Wire) (jws : InnerJws) (account changed : Account) (body : Bytes)
    (passed : check_change s wire jws account body ≡ accepted changed)
    → IsKeyChange s wire jws account body changed
unfolding check_change
check_change-IsKeyChange s wire jws account changed body passed =
    elim (ParsedInner-cases (jws.parse_inner body)) [
      | inr (e, k) ↦ absurd (ground arith)
      | inl (i, k) ↦ check_inner-IsKeyChange s wire jws account changed body i k (ground arith)
    ]
