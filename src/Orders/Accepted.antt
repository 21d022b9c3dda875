-- ===== src/Orders/Accepted.antt =====
-- order.go: the answers to a challenge response.
use Prim.Native.String.{len}
use go_acme_server.Prelude.{
  ◌≡◌, ◌≢◌, ◌≤◌, subst, next_u64, ◌↔◌, ◌⊎◌, inl, inr, refl, false, not, String, ◌==◌, eq_iff, none,
  some, arith, Bool-cases, Option-cases, leb, if◌then◌else◌,
}
use go_acme_server.Exec.{Ctx, Result, Result-cases, ok, err, ◌>>=◌ as ◌>>=ₛ◌}
use go_acme_server.Status.Authorization.{AuthorizationStatus, is as authorization_is}
use go_acme_server.Status.Challenge.{ChallengeStatus, is as challenge_is}
use go_acme_server.Problem.{Problem}
use go_acme_server.Resource.{
  ChallengeType, unset, http01, dns01, tls_alpn01, tk_auth01, other, Account, Authorization,
  Challenge, Task, Time, effective_authz_status,
}
use go_acme_server.Memstore.{Store}
use go_acme_server.Memstore.Checks.{check_challenge, check_new_task, insert_task}
use go_acme_server.Table.{get, get-put_self, string_eq}
use go_acme_server.Memstore.Work.{accept_challenge}
use go_acme_server.Memstore.Tasks.{account_validations}
use go_acme_server.Memstore.Authorizations.{authorization, challenge}
use go_acme_server.Server.{Server, World, Run, pure, now, call, new_id, is_mismatch, ◌>>=◌}
use go_acme_server.Answer.{Answer, accepted, check_limit}
use go_acme_server.Orders.Response.{
  ChallengeResponse, authority_token, max_authority_token_length, check_challenge_response,
  limit_request, after_accept, responded, validation_task, enqueue, within_limits, accept,
}

-- A field that carries the token, or is left out.
abbrev pub Carries : String → String → Type 0
Carries field token = (field ≡ "") ⊎ (field ≡ token)

-- Without tkauth-01 no field is given; with it there is one token of a bounded length that each
-- given field carries.
abbrev pub Acceptable : ChallengeType → ChallengeResponse → Type 0
Acceptable tk_auth01 p =
    (token : String) × (token ≢ "")
    × (len token ≤ max_authority_token_length)
    × (authority_token p ≡ token)
    × Carries p.tk_auth token
    × Carries p.atc token
Acceptable _ p = (p.tk_auth ≡ "") × (p.atc ≡ "")

-- The store holds the challenge under its ID, and it is no longer pending.
abbrev pub IsHeld : String → Challenge → Store → Type 0
IsHeld id c st =
    (challenge_is c.status ChallengeStatus.pending ≡ false) × (get id st.challenges ≡ some c)

IsHeld-there :
    (id : String) (c d : Challenge) (st st' : Store)
    → c ≡ d
    → st ≡ st'
    → IsHeld id c st
    → IsHeld id d st'
IsHeld-there id c d st st' e f h = subst (λ x. IsHeld id x st') e (subst (λ x. IsHeld id c x) f h)

accept_challenge-IsHeld :
    (ctx : Ctx) (ch : Challenge) (task : Task) (s : Store) (c : Challenge) (t : Task)
    → challenge_is ch.status ChallengeStatus.pending ≡ false
    → (accept_challenge ctx ch task s).0 ≡ ok (c, t)
    → IsHeld ch.id c (accept_challenge ctx ch task s).1
unfolding accept_challenge check_challenge check_new_task insert_task ◌>>=ₛ◌
accept_challenge-IsHeld ctx ch task s c t moved h =
    let written = record ch { revision = next_u64 ch.revision } in
    let there = get-put_self ch.id ch.id written s.challenges refl in (ground arith, ground arith)

challenge-reads :
    (ctx : Ctx) (id : String) (st : Store) (c : Challenge)
    → (challenge ctx id st).0 ≡ ok c
    → ((challenge ctx id st).1 ≡ st) × (get id st.challenges ≡ some c)
unfolding challenge ◌>>=ₛ◌
challenge-reads ctx id st c h = (ground arith, ground arith)

module _ (s : Server) where
  after_accept-IsHeld :
      (ch : Challenge) (r : Result (Challenge × Task)) (w : World) (c : Challenge)
      → ((d : Challenge) (t : Task) → r ≡ ok (d, t) → IsHeld ch.id d w.store)
      → (after_accept s ch r w).0 ≡ accepted c
      → IsHeld ch.id c (after_accept s ch r w).1.store
  unfolding after_accept ◌>>=◌ pure call
  after_accept-IsHeld ch (ok (d, t)) w c moved h =
      IsHeld-there ch.id d c w.store w.store (ground arith) refl (moved d t refl)
  after_accept-IsHeld ch (err e) w c moved h = elim (Bool-cases (is_mismatch e)) [
    | inr lost ↦ absurd (ground arith)
    | inl stale ↦
        let st = s.interfere w.steps w.store in
        let m = call s (λ x. challenge x ch.id) w in
        elim (Result-cases m.0) [
          | inr (e', p) ↦ absurd (ground arith)
          | inl (d, p) ↦ elim (Bool-cases (challenge_is d.status ChallengeStatus.pending)) [
            | inl q ↦ absurd (ground arith)
            | inr q ↦
                let (same, there) = challenge-reads (s.ctx w.steps) ch.id st d p in
                IsHeld-there ch.id d c st (after_accept s ch (err e) w).1.store (ground arith)
                  (ground arith) (q, there)
          ]
        ]
  ]

  enqueue-IsHeld :
      (ch : Challenge) (acc : Account) (payload : ChallengeResponse) (at : Time) (w : World)
      (c : Challenge)
      → (enqueue s ch acc payload at w).0 ≡ accepted c
      → IsHeld ch.id c (enqueue s ch acc payload at w).1.store
  unfolding enqueue ◌>>=◌ pure call responded
  enqueue-IsHeld ch acc payload at w c h =
      let m = new_id s w in
      elim (Option-cases m.0) [
        | inl p ↦ absurd (ground arith)
        | inr (id, p) ↦
            let ch' = responded s ch acc payload in
            let task = validation_task s id ch' acc at in
            let r = call s (λ x. accept_challenge x ch' task) m.1 in
            let held =
              after_accept-IsHeld ch' r.0 r.1 c
                (λ d t e.
                  accept_challenge-IsHeld (s.ctx m.1.steps) ch' task
                    (s.interfere m.1.steps m.1.store) d t refl e)
                (ground arith) in
            IsHeld-there ch.id c c (after_accept s ch' r.0 r.1).1.store
              (enqueue s ch acc payload at w).1.store refl (ground arith) held
      ]

  within_limits-IsHeld :
      (id : String) (acc : Account) (authz : Authorization) (go : Run (Answer Challenge))
      (w : World) (c : Challenge)
      → ((u : World) → (go u).0 ≡ accepted c → IsHeld id c (go u).1.store)
      → (within_limits s acc authz go w).0 ≡ accepted c
      → IsHeld id c (within_limits s acc authz go w).1.store
  unfolding within_limits ◌>>=◌ pure
  within_limits-IsHeld id acc authz go w c next h =
      let m = call s (λ x. account_validations x acc.id) w in
      elim (Result-cases m.0) [
        | inr (e, p) ↦ absurd (ground arith)
        | inl (pending, p) ↦ elim (Bool-cases (leb s.max_validations pending)) [
          | inl full ↦ absurd (ground arith)
          | inr free ↦
              let req = limit_request acc authz pending in
              let n = check_limit s req m.1 in
              elim (Option-cases n.0) [
                | inr (q, k) ↦ absurd (ground arith)
                | inl k ↦
                    IsHeld-there id c c (go n.1).1.store (within_limits s acc authz go w).1.store
                      refl (ground arith) (next n.1 (ground arith))
              ]
        ]
      ]

-- A response is never answered with a challenge that is still pending, whatever the other requests
-- and workers did meanwhile. The answer is the challenge that was asked for, which had moved on
-- already, or the one that the store holds at the end.
pub accept-stored :
    (s : Server) (ch : Challenge) (acc : Account) (payload : ChallengeResponse) (w : World)
    (c : Challenge) (answered : (accept s ch acc payload w).0 ≡ accepted c)
    → (challenge_is c.status ChallengeStatus.pending ≡ false)
      × ((c ≡ ch) ⊎ (get ch.id (accept s ch acc payload w).1.store.challenges ≡ some c))
unfolding accept ◌>>=◌ pure now
accept-stored s ch acc payload w c answered =
    elim (Bool-cases (challenge_is ch.status ChallengeStatus.pending)) [
      | inr moved ↦ (ground arith, inl (ground arith))
      | inl waiting ↦ elim (Option-cases (check_challenge_response ch.kind payload)) [
        | inr (p, q) ↦ absurd (ground arith)
        | inl fine ↦
            let m = call s (λ x. authorization x ch.authorization_id) w in
            elim (Result-cases m.0) [
              | inr (e, p) ↦ absurd (ground arith)
              | inl (authz, p) ↦
                  let at = s.clock m.1.steps in
                  elim (Bool-cases (
                    authorization_is (effective_authz_status authz at)
                      AuthorizationStatus.pending)) [
                        | inr settled ↦ absurd (ground arith)
                        | inl waits ↦
                            let go = enqueue s ch acc payload at in
                            let (live, held) =
                              within_limits-IsHeld s ch.id acc authz go (now s m.1).1 c
                                (λ u e. enqueue-IsHeld s ch acc payload at u c e) (ground arith) in
                            (live, inr (ground arith))
                      ]
            ]
      ]
    ]

-- Without tkauth-01 the check looks for any token.
plain :
    (q : Problem) (p : ChallengeResponse)
    → ((if not (authority_token p == "") then some q else none) ≡ none)
      ↔ ((p.tk_auth ≡ "") × (p.atc ≡ ""))
unfolding authority_token
plain q p = (
  λ h. ground (arith, eq_iff p.tk_auth "", eq_iff p.atc ""),
  λ h. ground (arith, eq_iff p.tk_auth "", eq_iff p.atc ""),
)

-- A response passes the check exactly when it is acceptable for the type of the challenge.
pub check_challenge_response-none_iff :
    (kind : ChallengeType) (p : ChallengeResponse)
    → (check_challenge_response kind p ≡ none) ↔ Acceptable kind p
unfolding check_challenge_response authority_token
check_challenge_response-none_iff tk_auth01 p = (
  λ h.
      let t = authority_token p in
      let a = eq_iff p.tk_auth "" in
      let b = eq_iff p.atc "" in
      let c = eq_iff p.tk_auth p.atc in
      let d = eq_iff t "" in (t, ground arith, ground arith, refl, ground arith, ground arith),
  λ (t, given, fits, same, first, second).
      ground (arith, eq_iff p.tk_auth "", eq_iff p.atc "", eq_iff p.tk_auth p.atc),
)
check_challenge_response-none_iff unset p = plain _ p
check_challenge_response-none_iff http01 p = plain _ p
check_challenge_response-none_iff dns01 p = plain _ p
check_challenge_response-none_iff tls_alpn01 p = plain _ p
check_challenge_response-none_iff (other k) p = plain _ p
