-- ===== src/Revocation/Authorized.antt =====
-- revoke.go: who may revoke a certificate.
use go_acme_server.Prelude.{
  ◌≡◌, inl, inr, arith, eq_iff, true, false, String, ◌==◌, none, some, List, Bool-cases,
  Option-cases,
}
use go_acme_server.Exec.{Result-cases, ok}
use go_acme_server.Problem.{nf_instance_id, Identifier}
use go_acme_server.Resource.{Bytes, Account, Certificate}
use go_acme_server.Memstore.Certificates.{authorized_for}
use go_acme_server.Server.{Server, World, pure, now, call, ◌>>=◌}
use go_acme_server.Requests.{Signed}
use go_acme_server.Certs.{Leaf, X509, found, has_type}
use go_acme_server.Certs.Chain.{revocation_identifiers}
use go_acme_server.Certs.Issued.{Found-cases}
use go_acme_server.Revocation.{check_signer, check_other_account, authorize_revocation}

module _ (s : Server) (x : X509) where
  -- The certificate is the account's own; or the store, asked at the time that was read, says that the
  -- account controls everything that the certificate names, which is then no network function; or the certificate's key signed the request.
  pub data MayRevoke (signed : Signed) (cert : Certificate) (leaf : Leaf) (w : World) : Type 0 where
    as_owner :
        (account : Account)
        → signed.account ≡ some account
        → account.id ≡ cert.account_id
        → MayRevoke signed cert leaf w
    as_authorized :
        (account : Account) (ids : List Identifier)
        → signed.account ≡ some account
        → revocation_identifiers x s.platform leaf.subject ≡ found ids
        → has_type x s.platform nf_instance_id ids ≡ false
        → (call s (λ c. authorized_for c account.id ids (s.clock w.steps)) (now s w).1).0 ≡ ok true
        → MayRevoke signed cert leaf w
    as_key_holder :
        (thumbprint : String)
        → signed.account ≡ none
        → x.thumbprint signed.key ≡ some thumbprint
        → leaf.thumbprint ≡ some thumbprint
        → MayRevoke signed cert leaf w

module _ (s : Server) (x : X509) where
  check_signer-key :
      (key : Bytes) (leaf : Leaf)
      → check_signer s x key leaf ≡ none
      → (t : String) × (x.thumbprint key ≡ some t) × (leaf.thumbprint ≡ some t)
  unfolding check_signer
  check_signer-key key leaf h = elim (Option-cases (x.thumbprint key)) [
    | inl e ↦ absurd (ground arith)
    | inr (t, e) ↦ elim (Option-cases leaf.thumbprint) [
      | inl k ↦ absurd (ground arith)
      | inr (u, k) ↦ elim (Bool-cases (t == u)) [
        | inr l ↦ absurd (ground arith)
        | inl l ↦ let same = (eq_iff t u).0 l in (t, e, ground arith)
      ]
    ]
  ]

  check_other_account-authorized :
      (account : Account) (leaf : Leaf) (w : World)
      → (check_other_account s x account leaf w).0 ≡ none
      → (ids : List Identifier) × (revocation_identifiers x s.platform leaf.subject ≡ found ids)
        × (has_type x s.platform nf_instance_id ids ≡ false)
        × ((call s (λ c. authorized_for c account.id ids (s.clock w.steps)) (now s w).1).0
            ≡ ok true)
  unfolding check_other_account ◌>>=◌ pure now
  check_other_account-authorized account leaf w h =
      elim (Found-cases (revocation_identifiers x s.platform leaf.subject)) [
        | inr e ↦ absurd (ground arith)
        | inl (ids, e) ↦ elim (Bool-cases (has_type x s.platform nf_instance_id ids)) [
          | inl k ↦ absurd (ground arith)
          | inr k ↦
              let m = now s w in
              let n = call s (λ c. authorized_for c account.id ids m.0) m.1 in
              elim (Result-cases n.0) [
                | inr (q, l) ↦ absurd (ground arith)
                | inl (known, l) ↦ elim (Bool-cases known) [
                  | inr d ↦ absurd (ground arith)
                  | inl d ↦ (ids, e, k, ground arith)
                ]
              ]
        ]
      ]

-- A revocation is let through only for the account that ordered the certificate, for an account that
-- is authorized for every identity of a certificate that names no network function, or for a request
-- that the key of the certificate signed.
pub authorize_revocation-MayRevoke :
    (s : Server) (x : X509) (signed : Signed) (cert : Certificate) (leaf : Leaf) (w : World)
    (let_through : (authorize_revocation s x signed cert leaf w).0 ≡ none)
    → MayRevoke s x signed cert leaf w
unfolding authorize_revocation ◌>>=◌ pure
authorize_revocation-MayRevoke s x signed cert leaf w let_through =
    elim (Option-cases signed.account) [
      | inl e ↦
          let (t, a, b) = check_signer-key s x signed.key leaf (ground arith) in
          as_key_holder t e a b
      | inr (account, e) ↦ elim (Bool-cases (account.id == cert.account_id)) [
        | inl k ↦ as_owner account e ((eq_iff account.id cert.account_id).0 k)
        | inr k ↦
            let (ids, a, b, c) = check_other_account-authorized s x account leaf w (ground arith) in
            as_authorized account ids e a b c
      ]
    ]
