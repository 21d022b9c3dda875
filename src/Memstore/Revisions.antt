-- ===== src/Memstore/Revisions.antt =====
-- memstore/memstore.go: the revisions keep a client from overwriting a change that it has not seen.
use go_acme_server.Prelude.{ℕ, ◌≡◌, ◌≢◌, ◌∙◌, ◌==◌, eq_refl, none, some, next_u64, arith, false}
use go_acme_server.Exec.{Ctx, ok, err, revision_mismatch, ◌>>=◌}
use go_acme_server.Table.{get, get-put, string_eq}
use go_acme_server.Resource.{Account, Authorization, Certificate}
use go_acme_server.Memstore.{Store}
use go_acme_server.Memstore.Accounts.{update_account, account}
use go_acme_server.Memstore.Authorizations.{update_authorization, authorization}
use go_acme_server.Memstore.Certificates.{update_certificate, certificate}

pub next_u64-ne : (r : ℕ) → next_u64 r ≢ r
next_u64-ne r e = absurd (omega arith)

-- What a successful update returns is what the store holds, one revision on.
update_account-stored :
    (ctx : Ctx) (s t : Store) (a b : Account)
    → update_account ctx a s ≡ (ok b, t)
    → (get a.id t.accounts ≡ some (record a { revision = next_u64 a.revision }))
      × (b ≡ record a { revision = next_u64 a.revision })
unfolding update_account ◌>>=◌
update_account-stored ctx s t a b h = ground (
  arith,
  get-put a.id a.id (record a { revision = next_u64 a.revision }) s.accounts,
  eq_refl a.id,
)

update_authorization-stored :
    (ctx : Ctx) (s t : Store) (a b : Authorization)
    → update_authorization ctx a s ≡ (ok b, t)
    → (get a.id t.authzs ≡ some (record a { revision = next_u64 a.revision }))
      × (b ≡ record a { revision = next_u64 a.revision })
unfolding update_authorization ◌>>=◌
update_authorization-stored ctx s t a b h =
    ground (
      arith,
      get-put a.id a.id (record a { revision = next_u64 a.revision }) s.authzs,
      eq_refl a.id,
    )

update_certificate-stored :
    (ctx : Ctx) (s t : Store) (a b : Certificate)
    → update_certificate ctx a s ≡ (ok b, t)
    → (get a.id t.certificates ≡ some (record a { revision = next_u64 a.revision }))
      × (b ≡ record a { revision = next_u64 a.revision })
unfolding update_certificate ◌>>=◌
update_certificate-stored ctx s t a b h = ground (
  arith,
  get-put a.id a.id (record a { revision = next_u64 a.revision }) s.certificates,
  eq_refl a.id,
)

update_account-stale :
    (s : Store) (a : Account) (c : Account)
    → get a.id s.accounts ≡ some c
    → (a.key_thumbprint == "") ≡ false
    → c.revision ≢ a.revision
    → update_account none a s ≡ (err revision_mismatch, s)
unfolding update_account ◌>>=◌
update_account-stale s a c e n h = ground arith

update_authorization-stale :
    (s : Store) (a c : Authorization)
    → get a.id s.authzs ≡ some c
    → c.revision ≢ a.revision
    → update_authorization none a s ≡ (err revision_mismatch, s)
unfolding update_authorization ◌>>=◌
update_authorization-stale s a c e h = ground arith

update_certificate-stale :
    (s : Store) (a c : Certificate)
    → get a.id s.certificates ≡ some c
    → c.revision ≢ a.revision
    → update_certificate none a s ≡ (err revision_mismatch, s)
unfolding update_certificate ◌>>=◌
update_certificate-stale s a c e h = ground arith

-- Two clients read an account at one revision. After the first has stored its change, the change
-- of the second is refused with a revision mismatch and the store keeps the first one's, at the
-- next revision, whatever the second wants to store (a thumbprint is required of it).
pub update_account-lost_update :
    (ctx : Ctx) (s t : Store) (a b c : Account)
    → update_account ctx a s ≡ (ok b, t)
    → c.id ≡ a.id
    → c.revision ≡ a.revision
    → (c.key_thumbprint == "") ≡ false
    → (update_account none c t ≡ (err revision_mismatch, t))
      × (account none a.id t ≡ (ok (record a { revision = next_u64 a.revision }), t))
unfolding account ◌>>=◌
update_account-lost_update ctx s t a b c h same_id same_revision n =
    let stored = (update_account-stored ctx s t a b h).0 in
    (
      update_account-stale t c (record a { revision = next_u64 a.revision }) (rw same_id stored) n
          (λ e. next_u64-ne a.revision (e ∙ same_revision)),
      rw stored,
    )

-- Two clients read an authorization at one revision. After the first has stored its change, the
-- change of the second is refused with a revision mismatch and the store keeps the first one's, at
-- the next revision.
pub update_authorization-lost_update :
    (ctx : Ctx) (s t : Store) (a b c : Authorization)
    → update_authorization ctx a s ≡ (ok b, t)
    → c.id ≡ a.id
    → c.revision ≡ a.revision
    → (update_authorization none c t ≡ (err revision_mismatch, t))
      × (authorization none a.id t ≡ (ok (record a { revision = next_u64 a.revision }), t))
unfolding authorization ◌>>=◌
update_authorization-lost_update ctx s t a b c h same_id same_revision =
    let stored = (update_authorization-stored ctx s t a b h).0 in
    (
      update_authorization-stale t c (record a { revision = next_u64 a.revision })
          (rw same_id stored) (λ e. next_u64-ne a.revision (e ∙ same_revision)),
      rw stored,
    )

-- Two clients read a certificate at one revision. After the first has stored its change, the change
-- of the second is refused with a revision mismatch and the store keeps the first one's, at the
-- next revision.
pub update_certificate-lost_update :
    (ctx : Ctx) (s t : Store) (a b c : Certificate)
    → update_certificate ctx a s ≡ (ok b, t)
    → c.id ≡ a.id
    → c.revision ≡ a.revision
    → (update_certificate none c t ≡ (err revision_mismatch, t))
      × (certificate none a.id t ≡ (ok (record a { revision = next_u64 a.revision }), t))
unfolding certificate ◌>>=◌
update_certificate-lost_update ctx s t a b c h same_id same_revision =
    let stored = (update_certificate-stored ctx s t a b h).0 in
    (
      update_certificate-stale t c (record a { revision = next_u64 a.revision }) (rw same_id stored)
          (λ e. next_u64-ne a.revision (e ∙ same_revision)),
      rw stored,
    )
