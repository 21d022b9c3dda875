-- ===== src/Revocation/Recorded.antt =====
-- revoke.go: what a revocation leaves in the store.
use go_acme_server.Prelude.{
  ℕ, zero, suc, ◌≡◌, ◌⊎◌, inl, inr, refl, sym, subst, arith, true, String, none, some, next_u64,
  ◌=?◌, Bool-cases, Option-cases,
}
use go_acme_server.Exec.{
  Ctx, Result-cases, ok, err, StoreError, not_found, revision_mismatch, ◌>>=◌ as ◌>>=ₛ◌,
}
use go_acme_server.Table.{get, put, get-put_self, string_eq}
use go_acme_server.Resource.{Certificate}
use go_acme_server.Memstore.{Store}
use go_acme_server.Memstore.Certificates.{certificate, update_certificate}
use go_acme_server.Server.{Server, World, pure, now, call, is_mismatch, ◌>>=◌}
use go_acme_server.Certs.{X509}
use go_acme_server.Revocation.{revoked_by, record_loop}

-- Each certificate is stored under its own ID.
abbrev pub IsKeyed : Store → Type 0
IsKeyed st = (id : String) (c : Certificate) → get id st.certificates ≡ some c → c.id ≡ id

abbrev pub bumped : Certificate → Certificate
bumped cert = record cert { revision = next_u64 cert.revision }

abbrev pub Stored : Certificate → Store → Store
Stored cert st = record st { certificates = put cert.id (bumped cert) st.certificates }

-- An update fails and leaves the store as it is, or stores the certificate.
pub update_certificate-cases :
    (ctx : Ctx) (cert : Certificate) (st : Store)
    → (((e : StoreError) × ((update_certificate ctx cert st).0 ≡ err e))
        × ((update_certificate ctx cert st).1 ≡ st))
      ⊎ (((update_certificate ctx cert st).0 ≡ ok (bumped cert))
          × ((update_certificate ctx cert st).1 ≡ Stored cert st))
unfolding update_certificate ◌>>=ₛ◌
update_certificate-cases (some e) cert st = inl ((_, refl), refl)
update_certificate-cases none cert st = elim (Option-cases (get cert.id st.certificates)) [
  | inl e ↦ inl ((not_found, ground arith), ground arith)
  | inr (stored, e) ↦ elim (Bool-cases (stored.revision =? cert.revision)) [
    | inr k ↦ inl ((revision_mismatch, ground arith), ground arith)
    | inl k ↦ inr (ground arith, ground arith)
  ]
]

certificate-cases :
    (ctx : Ctx) (id : String) (st : Store)
    → ((certificate ctx id st).1 ≡ st)
      × ((c : Certificate) → (certificate ctx id st).0 ≡ ok c → get id st.certificates ≡ some c)
unfolding certificate ◌>>=ₛ◌
certificate-cases (some e) id st = (refl, λ c h. absurd (ground arith))
certificate-cases none id st = elim (Option-cases (get id st.certificates)) [
  | inl e ↦ (ground arith, λ c h. absurd (ground arith))
  | inr (d, e) ↦ (ground arith, λ c h. ground arith)
]

get-Stored :
    (cert : Certificate) (st : Store)
    → get cert.id (Stored cert st).certificates ≡ some (bumped cert)
get-Stored cert st = get-put_self cert.id cert.id (bumped cert) st.certificates refl

module _ (s : Server) (x : X509) where
  -- What the other requests and workers do keeps each certificate under its own ID.
  abbrev pub KeepsKeys : Type 0
  KeepsKeys = (n : ℕ) (st : Store) → IsKeyed st → IsKeyed (s.interfere n st)

  -- The certificate is stored as revoked.
  abbrev pub IsRevokedIn : String → Store → Type 0
  IsRevokedIn id st = (c : Certificate) × (get id st.certificates ≡ some c) × (c.revoked ≡ true)

  revoked_here :
      (id id' : String) (st st' : Store)
      → id ≡ id'
      → st ≡ st'
      → IsRevokedIn id st
      → IsRevokedIn id' st'
  revoked_here id id' st st' e f h =
      subst (λ i. IsRevokedIn i st') e (subst (λ t. IsRevokedIn id t) f h)

  pub after_update :
      (keeps : KeepsKeys) (cert : Certificate) (w : World) (e : StoreError)
      → IsKeyed w.store
      → (call s (λ c. update_certificate c cert) w).0 ≡ err e
      → IsKeyed (call s (λ c. update_certificate c cert) w).1.store
  unfolding call
  after_update keeps cert w e k h =
      let st = s.interfere w.steps w.store in
      elim (update_certificate-cases (s.ctx w.steps) cert st) [
        | inl ((f, r), same) ↦ subst (λ t. IsKeyed t) (sym same) (keeps w.steps w.store k)
        | inr (r, same) ↦ absurd (ground arith)
      ]

  pub stored_update :
      (cert updated : Certificate) (w : World)
      → (call s (λ c. update_certificate c cert) w).0 ≡ ok updated
      → get cert.id (call s (λ c. update_certificate c cert) w).1.store.certificates
        ≡ some (bumped cert)
  unfolding call
  stored_update cert updated w h =
      let st = s.interfere w.steps w.store in
      elim (update_certificate-cases (s.ctx w.steps) cert st) [
        | inl ((f, r), same) ↦ absurd (ground arith)
        | inr (r, same) ↦
            subst (λ t. get cert.id t.certificates ≡ some (bumped cert)) (sym same)
              (get-Stored cert st)
      ]

  pub looked_up :
      (keeps : KeepsKeys) (id : String) (current : Certificate) (w : World)
      → IsKeyed w.store
      → (call s (λ c. certificate c id) w).0 ≡ ok current
      → IsKeyed (call s (λ c. certificate c id) w).1.store
        × (current.id ≡ id)
        × (get id (call s (λ c. certificate c id) w).1.store.certificates ≡ some current)
  unfolding call
  looked_up keeps id current w k h =
      let st = s.interfere w.steps w.store in
      let (same, find) = certificate-cases (s.ctx w.steps) id st in
      let keyed = keeps w.steps w.store k in
      let f = find current h in
      (
        subst (λ t. IsKeyed t) (sym same) keyed,
        keyed id current f,
        subst (λ t. get id t.certificates ≡ some current) (sym same) f,
      )

  pub record_loop-revoked :
      (keeps : KeepsKeys) (rounds : ℕ) (operation cert : Certificate) (w : World)
      → IsKeyed w.store
      → (record_loop s x rounds operation cert w).0 ≡ none
      → IsRevokedIn cert.id (record_loop s x rounds operation cert w).1.store
  unfolding record_loop ◌>>=◌ pure now
  record_loop-revoked keeps zero operation cert w k h = absurd (ground arith)
  record_loop-revoked keeps (suc rounds) operation cert w k h =
      let at = s.clock w.steps in
      let v = (now s w).1 in
      let written = revoked_by s x operation cert at in
      let m = call s (λ c. update_certificate c written) v in
      elim (Result-cases m.0) [
        | inl (updated, e) ↦
            let there = stored_update written updated v e in (bumped written, ground arith, refl)
        | inr (f, e) ↦ elim (Bool-cases (is_mismatch f)) [
          | inr q ↦ absurd (ground arith)
          | inl q ↦
              let keyed = after_update keeps written v f (keeps w.steps w.store k) e in
              let n = call s (λ c. certificate c cert.id) m.1 in
              elim (Result-cases n.0) [
                | inr (g, r) ↦ absurd (ground arith)
                | inl (current, r) ↦
                    let (keyed', own, there) = looked_up keeps cert.id current m.1 keyed r in
                    elim (Bool-cases current.revoked) [
                      | inl done ↦ (current, ground arith, done)
                      | inr live ↦
                          let rec =
                            record_loop-revoked keeps rounds operation current n.1 keyed'
                              (ground arith) in
                          revoked_here current.id cert.id
                            (record_loop s x rounds operation current n.1).1.store
                            (record_loop s x (suc rounds) operation cert w).1.store own
                            (ground arith) rec
                    ]
              ]
        ]
      ]
