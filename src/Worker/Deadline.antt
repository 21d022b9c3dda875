-- ===== src/Worker/Deadline.antt =====
-- issuance.go: the deadline of a dispatch and the end of the certificate.
use go_acme_server.Prelude.{
  ◌≡◌, ◌+◌, length, subst, ap, ◌≤◌, ◌<◌, ◌⊎◌, inl, inr, refl, sym, ◌∙◌, false, not, ◌&&◌, ◌||◌,
  String, some, List, [], ◌∷◌, ◌++◌, arith, Bool-cases, if◌then◌else◌,
}
use go_acme_server.Exec.{Ctx, Result, Result-cases, ok, ◌>>=◌ as ◌>>=ₛ◌}
use go_acme_server.Table.{get, string_eq}
use go_acme_server.Memstore.{Store}
use go_acme_server.Status.Authorization.{AuthorizationStatus, is as authorization_is}
use go_acme_server.Resource.{
  Time, Order, Authorization, Validation, IssuanceState, effective_authz_status, after, before,
  is_zero,
}
use go_acme_server.Memstore.Authorizations.{authorization}
use go_acme_server.Server.{Server, World, pure, call, ◌>>=◌}
use go_acme_server.Worker.Evidence.{
  narrowed, Proposal, proposed, validation_evidence, collect, issuance_authorization, narrow_grant,
  grant_expiry, issued_not_after,
}

-- The deadline covers the authorization: at `now` it is valid, its grant has not ended, and neither
-- ends before the deadline.
abbrev pub Covers : Time → Time → Authorization → Type 0
Covers now deadline a =
    (effective_authz_status a now ≡ AuthorizationStatus.valid)
    × (deadline ≤ a.expires)
    × ((a.grant_expires ≡ 0) ⊎ ((deadline ≤ a.grant_expires) × (now < a.grant_expires)))

abbrev pub CoversAll : Time → Time → List Authorization → Type 0
CoversAll now deadline [] = Unit
CoversAll now deadline (a ∷ more) = Covers now deadline a × CoversAll now deadline more

CoversAll-mono :
    (now d d' : Time) (l : List Authorization) → d' ≤ d → CoversAll now d l → CoversAll now d' l
CoversAll-mono now d d' [] le h = tt
CoversAll-mono now d d' (a ∷ l) le ((e, f, inl z), rest) =
    ((e, omega arith, inl z), CoversAll-mono now d d' l le rest)
CoversAll-mono now d d' (a ∷ l) le ((e, f, inr (g, k)), rest) =
    ((e, omega arith, inr (omega arith, k)), CoversAll-mono now d d' l le rest)

CoversAll-snoc :
    (now d : Time) (l : List Authorization) (a : Authorization)
    → CoversAll now d l
    → Covers now d a
    → CoversAll now d (l ++ (a ∷ []))
CoversAll-snoc now d [] a h c = (c, tt)
CoversAll-snoc now d (b ∷ l) a (e, rest) c = (e, CoversAll-snoc now d l a rest c)

length-snoc : (l : List Authorization) (a : Authorization) → length (l ++ (a ∷ [])) ≡ length l + 1
length-snoc [] a = refl
length-snoc (b ∷ l) a = let n = length-snoc l a in ground arith

narrowed-le : (deadline : Time) (a : Authorization) → narrowed deadline a ≤ deadline
narrowed-le deadline a = ground arith

narrowed-Covers :
    (now deadline : Time) (a : Authorization)
    → not (authorization_is (effective_authz_status a now) AuthorizationStatus.valid) ≡ false
    → not (is_zero a.grant_expires) && not (after a.grant_expires now) ≡ false
    → Covers now (narrowed deadline a) a
narrowed-Covers now deadline a e g = (
  ground arith,
  ground arith,
  elim (Bool-cases (is_zero a.grant_expires)) [
    | inl z ↦ inl (ground arith)
    | inr z ↦ inr (ground arith, ground arith)
  ],
)

proposed_inj :
    {l m : List Authorization} {a b : IssuanceState} {w t : World}
    → ◌≡◌ {A = Result Proposal × World} (ok (proposed l a), w) (ok (proposed m b), t)
    → (l ≡ m) × (a ≡ b)
proposed_inj h = (cc, cc)

snoc-append : {A : Type 0} (l m : List A) (a : A) → (l ++ (a ∷ [])) ++ m ≡ l ++ (a ∷ m)
snoc-append [] m a = refl
snoc-append (b ∷ l) m a = ap (λ r. b ∷ r) (snoc-append l m a)

append_nil : {A : Type 0} (l : List A) → l ++ [] ≡ l
append_nil [] = refl
append_nil (a ∷ l) = ap (λ r. a ∷ r) (append_nil l)

authorization-found :
    (ctx : Ctx) (id : String) (st : Store) (a : Authorization)
    → (authorization ctx id st).0 ≡ ok a
    → get id st.authzs ≡ some a
unfolding authorization ◌>>=ₛ◌
authorization-found ctx id st a h = ground arith

module _ (s : Server) where
  -- From one world to the other, each ID names its authorization in the store at the step of its
  -- turn, and the evidence is what was read for it; other requests act before every read.
  abbrev pub AreGathered :
      World → List String → List Authorization → List Validation → World → Type 0
  AreGathered w [] [] [] t = w ≡ t
  AreGathered w (id ∷ ids) (a ∷ more) (v ∷ vs) t =
      let read = (call s (λ c. authorization c id) w).1 in
      (get id (s.interfere w.steps w.store).authzs ≡ some a)
      × ((validation_evidence s a read).0 ≡ ok v)
      × AreGathered (validation_evidence s a read).1 ids more vs t
  AreGathered w _ _ _ t = ⊥

  call_found :
      (id : String) (w : World) (a : Authorization)
      → (call s (λ c. authorization c id) w).0 ≡ ok a
      → get id (s.interfere w.steps w.store).authzs ≡ some a
  unfolding call
  call_found id w a h = authorization-found (s.ctx w.steps) id (s.interfere w.steps w.store) a h

  -- What a round of the loop has seen when the loop ends with a proposal.
  collect-round :
      (now : Time) (id : String) (ids : List String) (read authzs : List Authorization)
      (state st : IssuanceState) (w t : World)
      → collect s now (id ∷ ids) read state w ≡ (ok (proposed authzs st), t)
      → (a : Authorization) × (v : Validation) × (get id (s.interfere w.steps w.store).authzs
          ≡ some a)
        × ((validation_evidence s a (call s (λ c. authorization c id) w).1).0 ≡ ok v)
        × (not (authorization_is (effective_authz_status a now) AuthorizationStatus.valid) ≡ false)
        × (not (is_zero a.grant_expires) && not (after a.grant_expires now) ≡ false)
        × (collect s now ids
              (read ++ (a ∷ []))
              (record state {
                validations = state.validations ++ (v ∷ []);
                deadline = narrowed state.deadline a;
              })
              (validation_evidence s a (call s (λ c. authorization c id) w).1).1
            ≡ (ok (proposed authzs st), t))
  unfolding collect ◌>>=◌
  collect-round now id ids read authzs state st w t h =
      let m = call s (λ c. authorization c id) w in
      elim (Result-cases m.0) [
        | inr (e, p) ↦ absurd (ground arith)
        | inl (a, p) ↦
            let n = validation_evidence s a m.1 in
            elim (Result-cases n.0) [
              | inr (e, q) ↦ absurd (ground arith)
              | inl (v, q) ↦
                  (a, v, call_found id w a p, q, ground arith, ground arith, ground arith)
            ]
      ]

  collect_sound :
      (now : Time) (ids : List String) (read authzs : List Authorization) (state st : IssuanceState)
      (w t : World)
      → CoversAll now state.deadline read
      → collect s now ids read state w ≡ (ok (proposed authzs st), t)
      → (st.deadline ≤ state.deadline)
        × (length authzs ≡ length read + length ids)
        × CoversAll now st.deadline authzs
  unfolding collect pure
  collect_sound now [] read authzs state st w t c h =
      let same = proposed_inj h in
      let d = ap (λ x. x.deadline) same.1 in
      let n = ap length same.0 in
      (
        omega arith,
        omega arith,
        subst (λ l. CoversAll now st.deadline l) same.0 (subst (λ d. CoversAll now d read) d c),
      )
  collect_sound now (id ∷ ids) read authzs state st w t c h =
      let (a, v, found, seen, e, g, next) = collect-round now id ids read authzs state st w t h in
      let le = narrowed-le state.deadline a in
      let (lower, n, all) =
        collect_sound now ids (read ++ (a ∷ [])) authzs
          (record state {
            validations = state.validations ++ (v ∷ []);
            deadline = narrowed state.deadline a;
          })
          st (validation_evidence s a (call s (λ c. authorization c id) w).1).1 t
          (CoversAll-snoc now (narrowed state.deadline a) read a
            (CoversAll-mono now state.deadline (narrowed state.deadline a) read le c)
            (narrowed-Covers now state.deadline a e g))
          next in
      let m = length-snoc read a in (omega arith, omega arith, all)

module _ (s : Server) where
  gathered_there :
      (w t : World) (ids : List String) (l m : List Authorization) (vs us : List Validation)
      → l ≡ m
      → vs ≡ us
      → AreGathered s w ids l vs t
      → AreGathered s w ids m us t
  gathered_there w t ids l m vs us e f h =
      subst (λ x. AreGathered s w ids m x t) f (subst (λ x. AreGathered s w ids x vs t) e h)

  collect-AreGathered :
      (now : Time) (ids : List String) (read authzs : List Authorization) (state st : IssuanceState)
      (w t : World)
      → collect s now ids read state w ≡ (ok (proposed authzs st), t)
      → (more : List Authorization) × (vs : List Validation) × (authzs ≡ read ++ more)
        × (st.validations ≡ state.validations ++ vs)
        × AreGathered s w ids more vs t
  unfolding collect pure
  collect-AreGathered now [] read authzs state st w t h =
      let same = proposed_inj h in
      (
        [],
        [],
        sym same.0 ∙ sym (append_nil read),
        ap (λ x. x.validations) (sym same.1) ∙ sym (append_nil state.validations),
        ap (λ x. x.1) h,
      )
  collect-AreGathered now (id ∷ ids) read authzs state st w t h =
      let (a, v, found, seen, e, g, next) = collect-round s now id ids read authzs state st w t h in
      let (more, vs, same, evidence, gathered) =
        collect-AreGathered now ids (read ++ (a ∷ [])) authzs
          (record state {
            validations = state.validations ++ (v ∷ []);
            deadline = narrowed state.deadline a;
          })
          st (validation_evidence s a (call s (λ c. authorization c id) w).1).1 t next in
      (
        a ∷ more,
        v ∷ vs,
        same ∙ snoc-append read more a,
        evidence ∙ snoc-append state.validations vs v,
        (found, seen, gathered),
      )

-- When a dispatch is proposed, every authorization that the order lists was read from the store, with
-- its evidence, and covers the dispatch: it is valid at `now`, its grant has not ended, and the proposed deadline is after neither its end
-- nor its grant's, nor the order's. The other requests and workers may act between any two reads.
pub issuance_authorization-deadline :
    (s : Server) (operation_id : String) (order : Order) (now : Time) (authzs : List Authorization)
    (state : IssuanceState) (w t : World)
    (read : issuance_authorization s operation_id order now w ≡ (ok (proposed authzs state), t))
    → (state.deadline ≤ order.expires)
      × (length authzs ≡ length order.authorization_ids)
      × CoversAll now state.deadline authzs
      × AreGathered s w order.authorization_ids authzs state.validations t
unfolding issuance_authorization
issuance_authorization-deadline s operation_id order now authzs state w t read =
    let (lower, n, all) =
      collect_sound s now order.authorization_ids [] authzs
        (record {
          operation_id = operation_id;
          authorized_at = now;
          deadline = order.expires;
          validations = [];
        })
        state w t tt read in
    let (more, vs, same, evidence, gathered) =
      collect-AreGathered s now order.authorization_ids [] authzs
        (record {
          operation_id = operation_id;
          authorized_at = now;
          deadline = order.expires;
          validations = [];
        })
        state w t read in
    (
      lower,
      omega arith,
      all,
      gathered_there s w t order.authorization_ids more authzs vs state.validations (sym same)
          (sym evidence) gathered,
    )

-- A certificate that ends at `bound` ends by `t`, where 0 stands for no bound.
abbrev pub EndsBy : Time → Time → Type 0
EndsBy bound t = (t ≡ 0) ⊎ ((0 < bound) × (bound ≤ t))

abbrev pub EndsByGrants : Time → List Validation → Type 0
EndsByGrants bound [] = Unit
EndsByGrants bound (v ∷ vs) = EndsBy bound v.grant_expires × EndsByGrants bound vs

abbrev pub step_grant : Validation → Time → Time
step_grant v bound =
    if not (is_zero v.grant_expires) && (is_zero bound || before v.grant_expires bound)
    then v.grant_expires
    else bound

step_grant-EndsBy :
    (v : Validation) (bound r : Time)
    → EndsBy r (step_grant v bound)
    → EndsBy r bound × EndsBy r v.grant_expires
step_grant-EndsBy v bound r h = (ground arith, ground arith)

narrow_grant-EndsBy :
    (vs : List Validation) (bound : Time)
    → EndsBy (narrow_grant vs bound) bound × EndsByGrants (narrow_grant vs bound) vs
narrow_grant-EndsBy [] bound = (ground arith, tt)
narrow_grant-EndsBy (v ∷ vs) bound =
    let (h, rest) = narrow_grant-EndsBy vs (step_grant v bound) in
    let (f, g) = step_grant-EndsBy v bound (narrow_grant (v ∷ vs) bound) h in (f, (g, rest))

EndsByGrants-le :
    (vs : List Validation) (r n : Time)
    → (r ≡ 0) ⊎ ((0 < n) × (n ≤ r))
    → EndsByGrants r vs
    → EndsByGrants n vs
EndsByGrants-le [] r n h g = tt
EndsByGrants-le (v ∷ vs) r n h (g, rest) = (ground arith, EndsByGrants-le vs r n h rest)

-- The notAfter that a dispatched order asks the CA for is within the one of the order, where the
-- client set one, and within every grant of the evidence that ends.
pub issued_not_after-EndsBy :
    (o : Order) (state : IssuanceState) (dispatched : o.issuance ≡ some state)
    → EndsBy (issued_not_after o) o.not_after × EndsByGrants (issued_not_after o) state.validations
unfolding issued_not_after grant_expiry
issued_not_after-EndsBy o state dispatched =
    let (z, h) = narrow_grant-EndsBy state.validations 0 in
    (
      ground arith,
      EndsByGrants-le state.validations (grant_expiry state.validations) (issued_not_after o)
          (ground arith) h,
    )
