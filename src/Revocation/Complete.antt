-- ===== src/Revocation/Complete.antt =====
-- revoke.go: a revocation from its authorization to the stored certificate.
use go_acme_server.Prelude.{
  ℕ, zero, suc, ◌≡◌, ◌≢◌, ◌⊎◌, inl, inr, refl, sym, subst, arith, eq_iff, false, not, ◌||◌, String,
  ◌==◌, Option, none, some, List, Bool-cases, Option-cases,
}
use go_acme_server.Exec.{Ctx, Result-cases, ok, ◌>>=◌ as ◌>>=ₛ◌}
use go_acme_server.Table.{get, get-put, string_eq}
use go_acme_server.Problem.{nf_instance_id, Identifier}
use go_acme_server.Resource.{Bytes, Certificate}
use go_acme_server.Memstore.{Store}
use go_acme_server.Memstore.Certificates.{
  certificate, update_certificate, authorized_for, all_proved, is_valid_account, is_empty,
}
use go_acme_server.Server.{
  Server, World, HostError, final, retryable, failure, pure, now, call, new_id, ask_host,
  is_mismatch, ◌>>=◌,
}
use go_acme_server.Answer.{Answer-cases, accepted}
use go_acme_server.Requests.{Signed}
use go_acme_server.Certs.{Leaf, X509, has_type}
use go_acme_server.Certs.Chain.{revocation_identifiers}
use go_acme_server.Certs.Issued.{Found-cases}
use go_acme_server.Revocation.{
  begun, begin_loop, begin_revocation, record_revocation, revoke_request, after_revoke,
  check_other_account, authorize_revocation, revoke_certificate,
}
use go_acme_server.Revocation.Recorded.{
  IsKeyed, bumped, Stored, KeepsKeys, IsRevokedIn, update_certificate-cases, after_update,
  stored_update, looked_up, record_loop-revoked,
}
use go_acme_server.Revocation.Authorized.{MayRevoke, authorize_revocation-MayRevoke}

authorized_for-reads :
    (ctx : Ctx) (id : String) (ids : List Identifier) (at : ℕ) (st : Store)
    → (authorized_for ctx id ids at st).1 ≡ st
unfolding authorized_for ◌>>=ₛ◌
authorized_for-reads (some e) id ids at st = refl
authorized_for-reads none id ids at st =
    elim (Bool-cases (not (is_valid_account (get id st.accounts)) || is_empty ids)) [
      | inl e ↦ ground arith
      | inr e ↦ elim (Option-cases (all_proved st id at ids)) [
        | inl k ↦ ground arith
        | inr (b, k) ↦ ground arith
      ]
    ]

Stored-IsKeyed : (cert : Certificate) (st : Store) → IsKeyed st → IsKeyed (Stored cert st)
Stored-IsKeyed cert st k id c h =
    let g = get-put id cert.id (bumped cert) st.certificates in
    elim (Bool-cases (cert.id == id)) [
      | inl e ↦ let same = (eq_iff cert.id id).0 e in ground arith
      | inr e ↦ k id c (ground arith)
    ]

keyed_same : (st st' : Store) → st ≡ st' → IsKeyed st → IsKeyed st'
keyed_same st st' e k = subst (λ t. IsKeyed t) e k

module _ (s : Server) (x : X509) where
  -- `newID` never answers with the empty text.
  abbrev pub GivesIds : Type 0
  GivesIds = (n : ℕ) (id : String) → s.ids n ≡ some id → id ≢ ""

  -- A recorded operation on a certificate that is not revoked yet.
  abbrev pub IsOperation : String → Certificate → Type 0
  IsOperation id c = (c.id ≡ id) × (c.revoked ≡ false) × (c.revocation_operation_id ≢ "")

  -- The certificate as it was read has the operation, or the store has it.
  abbrev pub IsRecorded : Certificate → Certificate → Store → Type 0
  IsRecorded cert operation st =
      ((operation ≡ cert) × (cert.revocation_operation_id ≢ ""))
      ⊎ (get cert.id st.certificates ≡ some operation)

  updated_keyed :
      (keeps : KeepsKeys s x) (cert updated : Certificate) (w : World)
      → IsKeyed w.store
      → (call s (λ c. update_certificate c cert) w).0 ≡ ok updated
      → (updated ≡ bumped cert) × IsKeyed (call s (λ c. update_certificate c cert) w).1.store
  unfolding call
  updated_keyed keeps cert updated w k h =
      let st = s.interfere w.steps w.store in
      elim (update_certificate-cases (s.ctx w.steps) cert st) [
        | inl ((f, r), same) ↦ absurd (ground arith)
        | inr (r, same) ↦ (
          ground arith,
          subst (λ t. IsKeyed t) (sym same) (Stored-IsKeyed cert st (keeps w.steps w.store k)),
        )
      ]

  kept_there :
      (rounds : ℕ) (cert : Certificate) (reason : ℕ) (w : World)
      → cert.revocation_operation_id ≢ ""
      → (begin_loop s x rounds cert reason w).1.store ≡ w.store
  unfolding begin_loop pure
  kept_there zero cert reason w given = refl
  kept_there (suc rounds) cert reason w given =
      elim (Bool-cases (cert.revocation_operation_id == "")) [
        | inl e ↦ absurd (given ((eq_iff cert.revocation_operation_id "").0 e))
        | inr e ↦ elim (Bool-cases cert.revoked) [ inl f ↦ ground arith | inr f ↦ ground arith ]
      ]

  recorded_there :
      (rounds : ℕ) (current c : Certificate) (id : String) (reason : ℕ) (w : World)
      → current.id ≡ id
      → get id w.store.certificates ≡ some current
      → (end : Store) → (begin_loop s x rounds current reason w).1.store ≡ end
      → (begin_loop s x rounds current reason w).0 ≡ accepted c
      → IsRecorded current c (begin_loop s x rounds current reason w).1.store
      → get id end.certificates ≡ some c
  unfolding begin_loop ◌>>=◌ pure
  recorded_there rounds current c id reason w own there end same h (inl (e, given)) =
      let unmoved = kept_there rounds current reason w given in ground arith
  recorded_there rounds current c id reason w own there end same h (inr e) = ground arith

  begin_loop-IsRecorded :
      (keeps : KeepsKeys s x) (rounds : ℕ) (cert c : Certificate) (reason : ℕ) (w : World)
      → IsKeyed w.store
      → (begin_loop s x rounds cert reason w).0 ≡ accepted c
      → IsRecorded cert c (begin_loop s x rounds cert reason w).1.store
  unfolding begin_loop ◌>>=◌ pure now new_id
  begin_loop-IsRecorded keeps zero cert c reason w k h = absurd (ground arith)
  begin_loop-IsRecorded keeps (suc rounds) cert c reason w k h = elim (Bool-cases cert.revoked) [
    | inl e ↦ absurd (ground arith)
    | inr e ↦ elim (Bool-cases (cert.revocation_operation_id == "")) [
      | inr f ↦ inl (ground arith, λ q. ground (arith, eq_iff cert.revocation_operation_id ""))
      | inl f ↦
          let m = new_id s w in
          elim (Option-cases m.0) [
            | inl g ↦ absurd (ground arith)
            | inr (id, g) ↦
                let v = (now s m.1).1 in
                let written = begun s x cert id reason (s.clock m.1.steps) in
                let keyed = keeps m.1.steps m.1.store (keeps w.steps w.store k) in
                let n = call s (λ y. update_certificate y written) v in
                elim (Result-cases n.0) [
                  | inl (updated, r) ↦
                      let there = stored_update s x written updated v r in
                      let (same, keyed') = updated_keyed keeps written updated v keyed r in
                      inr (ground arith)
                  | inr (bad, r) ↦ elim (Bool-cases (is_mismatch bad)) [
                    | inr q ↦ absurd (ground arith)
                    | inl q ↦
                        let keyed' = after_update s x keeps written v bad keyed r in
                        let l = call s (λ y. certificate y cert.id) n.1 in
                        elim (Result-cases l.0) [
                          | inr (worse, z) ↦ absurd (ground arith)
                          | inl (current, z) ↦
                              let (keyed'', own, there) =
                                looked_up s x keeps cert.id current n.1 keyed' z in
                              let rec =
                                begin_loop-IsRecorded keeps rounds current c reason l.1 keyed''
                                  (ground arith) in
                              let next = begin_loop s x rounds current reason l.1 in
                              inr (
                                recorded_there rounds current c cert.id reason l.1 own there
                                  (begin_loop s x (suc rounds) cert reason w).1.store (ground arith)
                                  (ground arith) rec)
                        ]
                  ]
                ]
          ]
    ]
  ]

  begin_loop-IsOperation :
      (keeps : KeepsKeys s x) (fresh : GivesIds) (rounds : ℕ) (cert c : Certificate) (reason : ℕ)
      (w : World)
      → IsKeyed w.store
      → (begin_loop s x rounds cert reason w).0 ≡ accepted c
      → IsOperation cert.id c × IsKeyed (begin_loop s x rounds cert reason w).1.store
  unfolding begin_loop ◌>>=◌ pure now new_id
  begin_loop-IsOperation keeps fresh zero cert c reason w k h = absurd (ground arith)
  begin_loop-IsOperation keeps fresh (suc rounds) cert c reason w k h =
      elim (Bool-cases cert.revoked) [
        | inl e ↦ absurd (ground arith)
        | inr e ↦ elim (Bool-cases (cert.revocation_operation_id == "")) [
          | inr f ↦
              let same : cert ≡ c = ground arith in
              let given : cert.revocation_operation_id ≢ "" =
                λ q. ground (arith, eq_iff cert.revocation_operation_id "") in
              (
                subst (λ d. IsOperation cert.id d) same (refl, e, given),
                keyed_same w.store (begin_loop s x (suc rounds) cert reason w).1.store
                    (ground arith) k,
              )
          | inl f ↦
              let m = new_id s w in
              elim (Option-cases m.0) [
                | inl g ↦ absurd (ground arith)
                | inr (id, g) ↦
                    let v = (now s m.1).1 in
                    let written = begun s x cert id reason (s.clock m.1.steps) in
                    let keyed = keeps m.1.steps m.1.store (keeps w.steps w.store k) in
                    let n = call s (λ y. update_certificate y written) v in
                    elim (Result-cases n.0) [
                      | inl (updated, r) ↦
                          let (same, keyed') = updated_keyed keeps written updated v keyed r in
                          let there : bumped written ≡ c = ground arith in
                          (
                            subst (λ d. IsOperation cert.id d) there (refl, e, fresh w.steps id g),
                            keyed_same n.1.store (begin_loop s x (suc rounds) cert reason w).1.store
                                (ground arith) keyed',
                          )
                      | inr (bad, r) ↦ elim (Bool-cases (is_mismatch bad)) [
                        | inr q ↦ absurd (ground arith)
                        | inl q ↦
                            let keyed' = after_update s x keeps written v bad keyed r in
                            let l = call s (λ y. certificate y cert.id) n.1 in
                            elim (Result-cases l.0) [
                              | inr (worse, z) ↦ absurd (ground arith)
                              | inl (current, z) ↦
                                  let (keyed'', own, there) =
                                    looked_up s x keeps cert.id current n.1 keyed' z in
                                  let (op, last) =
                                    begin_loop-IsOperation keeps fresh rounds current c reason l.1
                                      keyed'' (ground arith) in
                                  (
                                    subst (λ i. IsOperation i c) own op,
                                    keyed_same (begin_loop s x rounds current reason l.1).1.store
                                        (begin_loop s x (suc rounds) cert reason w).1.store
                                        (ground arith) last,
                                  )
                            ]
                      ]
                    ]
              ]
        ]
      ]

  authorize_revocation-IsKeyed :
      (keeps : KeepsKeys s x) (signed : Signed) (cert : Certificate) (leaf : Leaf) (w : World)
      → IsKeyed w.store
      → (authorize_revocation s x signed cert leaf w).0 ≡ none
      → IsKeyed (authorize_revocation s x signed cert leaf w).1.store
  unfolding authorize_revocation check_other_account ◌>>=◌ pure now call
  authorize_revocation-IsKeyed keeps signed cert leaf w k h =
      let end = (authorize_revocation s x signed cert leaf w).1.store in
      elim (Option-cases signed.account) [
        | inl e ↦ keyed_same w.store end (ground arith) k
        | inr (account, e) ↦ elim (Bool-cases (account.id == cert.account_id)) [
          | inl f ↦ keyed_same w.store end (ground arith) k
          | inr f ↦ elim (Found-cases (revocation_identifiers x s.platform leaf.subject)) [
            | inr g ↦ absurd (ground arith)
            | inl (ids, g) ↦ elim (Bool-cases (has_type x s.platform nf_instance_id ids)) [
              | inl q ↦ absurd (ground arith)
              | inr q ↦
                  let v = (now s w).1 in
                  let at = s.clock w.steps in
                  let m = call s (λ c. authorized_for c account.id ids at) v in
                  let same =
                    authorized_for-reads (s.ctx v.steps) account.id ids at
                      (s.interfere v.steps v.store) in
                  elim (Result-cases m.0) [
                    | inr (bad, r) ↦ absurd (ground arith)
                    | inl (known, r) ↦
                        keyed_same (s.interfere v.steps v.store) end (ground arith)
                          (keeps v.steps v.store (keeps w.steps w.store k))
                  ]
            ]
          ]
        ]
      ]

  -- In `at` the operation of a certificate is recorded, and the CA accepts it there; at the end the
  -- certificate is stored as revoked.
  abbrev pub IsRevokedFor : Signed → Certificate → Bytes → World → Store → Type 0
  IsRevokedFor signed cert der at end =
      (operation : Certificate) × IsOperation cert.id operation
      × IsRecorded cert operation at.store
      × (s.host.revoke at.steps (revoke_request s x signed operation der) ≡ none)
      × IsRevokedIn s x cert.id end

  after_revoke-none :
      (keeps : KeepsKeys s x) (cert : Certificate) (answer : Option HostError) (w : World)
      → IsKeyed w.store
      → (after_revoke s x cert answer w).0 ≡ none
      → (answer ≡ none) × IsRevokedIn s x cert.id (after_revoke s x cert answer w).1.store
  unfolding after_revoke record_revocation ◌>>=◌ pure
  after_revoke-none keeps cert none w k h = (refl, record_loop-revoked s x keeps 2 cert cert w k h)
  after_revoke-none keeps cert (some (final p)) w k h = absurd (ground arith)
  after_revoke-none keeps cert (some (retryable p)) w k h = absurd (ground arith)
  after_revoke-none keeps cert (some failure) w k h = absurd (ground arith)

  after_begin :
      (keeps : KeepsKeys s x) (signed : Signed) (cert operation : Certificate) (der : Bytes)
      (w : World)
      → IsKeyed w.store
      → IsOperation cert.id operation
      → IsRecorded cert operation w.store
      → ((ask_host s (λ n. s.host.revoke n (revoke_request s x signed operation der))
            >>= after_revoke s x operation)
          w).0
        ≡ none
      → IsRevokedFor signed cert der w
          ((ask_host s (λ n. s.host.revoke n (revoke_request s x signed operation der))
              >>= after_revoke s x operation)
            w).1.store
  unfolding ◌>>=◌ ask_host
  after_begin keeps signed cert operation der w k (own, live, recorded) there_before h =
      let req = revoke_request s x signed operation der in
      let v = (ask_host s (λ n. s.host.revoke n req) w).1 in
      let (agreed, (c, there, gone)) =
        after_revoke-none keeps operation (s.host.revoke w.steps req) v (keeps w.steps w.store k)
          h in
      (
        operation,
        (own, live, recorded),
        there_before,
        agreed,
        subst
            (λ i.
              IsRevokedIn s x i (after_revoke s x operation (s.host.revoke w.steps req) v).1.store)
            own (c, there, gone),
      )

-- A request to revoke a certificate succeeds only for someone who may revoke it, and only where the
-- CA accepted the operation that the store had for the certificate by then, or that the certificate
-- had when it was read; the certificate is
-- then stored as revoked, whatever other requests and workers do to the store meanwhile that keeps
-- each certificate under its own ID.
pub revoke_certificate-IsRevokedFor :
    (s : Server) (x : X509) (keeps : KeepsKeys s x) (fresh : GivesIds s x) (signed : Signed)
    (cert : Certificate) (der : Bytes) (leaf : Leaf) (reason : ℕ) (w : World)
    (keyed : IsKeyed w.store)
    (succeeded : (revoke_certificate s x signed cert der leaf reason w).0 ≡ none)
    → MayRevoke s x signed cert leaf w
      × IsRevokedFor s x signed cert der
          (begin_revocation s x cert reason (authorize_revocation s x signed cert leaf w).1).1
          (revoke_certificate s x signed cert der leaf reason w).1.store
unfolding revoke_certificate begin_revocation ◌>>=◌ pure
revoke_certificate-IsRevokedFor s x keeps fresh signed cert der leaf reason w keyed succeeded =
    let a = authorize_revocation s x signed cert leaf w in
    elim (Option-cases a.0) [
      | inr (p, e) ↦ absurd (ground arith)
      | inl e ↦
          let keyed' = authorize_revocation-IsKeyed s x keeps signed cert leaf w keyed e in
          let b = begin_loop s x 2 cert reason a.1 in
          elim (Answer-cases b.0) [
            | inr (p, f) ↦ absurd (ground arith)
            | inl (operation, f) ↦
                let (op, keyed'') =
                  begin_loop-IsOperation s x keeps fresh 2 cert operation reason a.1 keyed' f in
                let done =
                  after_begin s x keeps signed cert operation der b.1 keyed'' op
                    (begin_loop-IsRecorded s x keeps 2 cert operation reason a.1 keyed' f)
                    (ground arith) in
                let same : ((ask_host s
                          (λ n. s.host.revoke n (revoke_request s x signed operation der))
                        >>= after_revoke s x operation)
                      b.1).1.store
                    ≡ (revoke_certificate s x signed cert der leaf reason w).1.store =
                  ground arith in
                (
                  authorize_revocation-MayRevoke s x signed cert leaf w e,
                  subst (λ t. IsRevokedFor s x signed cert der b.1 t) same done,
                )
          ]
    ]
