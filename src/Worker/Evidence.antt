-- ===== src/Worker/Evidence.antt =====
-- issuance.go: what one dispatch to the CA rests on: the authorizations of the order, the evidence of
-- each and the earliest deadline.
use go_acme_server.Prelude.{
  true, false, not, ◌&&◌, ◌||◌, String, Option, none, some, List, [], ◌∷◌, ◌++◌, if◌then◌else◌,
  concat,
}
use go_acme_server.Exec.{Result, ok, err, refused}
use go_acme_server.Status.Authorization.{AuthorizationStatus, is as authorization_is}
use go_acme_server.Status.Challenge.{ChallengeStatus, is as challenge_is}
use go_acme_server.Problem.{is_type, tn_auth_list, Problem, new_problem, unauthorized}
use go_acme_server.Resource.{
  Time, Order, Authorization, Validation, IssuanceState, unset, effective_authz_status, after,
  before, is_zero,
}
use go_acme_server.Memstore.Authorizations.{authorization, challenge, invalid_authorization_problem}
use go_acme_server.Server.{Server, Run, pure, call, on, ◌>>=◌}

-- A deadline narrowed by the end of an authorization, and by that of its grant where it has one.
abbrev pub earliest : Time → Time → Time
earliest deadline t = if before t deadline then t else deadline

abbrev pub narrowed : Time → Authorization → Time
narrowed deadline a =
    let by_authz = earliest deadline a.expires in
    if not (is_zero a.grant_expires) && before a.grant_expires by_authz
    then a.grant_expires
    else by_authz

-- The outcome of `issuanceAuthorization`: the authorizations and the proposed state, or a problem.
pub data Proposal : Type 0 where
  proposed : List Authorization → IssuanceState → Proposal
  declined : Problem → Proposal

module _ (s : Server) where
  -- What is known without the challenge.
  abbrev pub granted_evidence : Authorization → Validation
  granted_evidence a = record {
    identifier =
        if a.wildcard
        then record a.identifier { value = concat "*." a.identifier.value }
        else a.identifier;
    kind = unset;
    validated = 0;
    ca_certificate = a.ca_certificate;
    grant_expires =
        if s.tn_auth_list_outlive && is_type a.identifier.kind tn_auth_list
        then 0
        else a.grant_expires;
    names = a.grant_names;
    nf_type = a.grant_nf_type;
    pre_approved = false;
  }

  -- The first valid challenge completes the evidence.
  unfoldable pub challenge_evidence : Validation → List String → Run (Result Validation)
  challenge_evidence v [] = pure (err refused)
  challenge_evidence v (id ∷ ids) = do
    found ← call s (λ c. challenge c id)
    on found (λ e. pure (err e))
        (λ ch.
          let rest = challenge_evidence v ids in
          if challenge_is ch.status ChallengeStatus.valid
          then pure (ok (record v { kind = ch.kind; validated = ch.validated }))
          else rest)

  unfoldable pub validation_evidence : Authorization → Run (Result Validation)
  unfolding challenge_evidence
  validation_evidence a =
      if a.pre_approved
      then pure (ok (record (granted_evidence a) { pre_approved = true; validated = a.created_at }))
      else challenge_evidence (granted_evidence a) a.challenge_ids

  -- The loop over the authorizations, with those read so far and the state they propose.
  unfoldable pub collect :
      Time → List String → List Authorization → IssuanceState → Run (Result Proposal)
  unfolding validation_evidence
  collect now [] read state = pure (ok (proposed read state))
  collect now (id ∷ ids) read state = do
    found ← call s (λ c. authorization c id)
    on found (λ e. pure (err e))
        λ a.
          if not (authorization_is (effective_authz_status a now) AuthorizationStatus.valid)
          then pure (ok (declined invalid_authorization_problem))
          else if not (is_zero a.grant_expires) && not (after a.grant_expires now)
          then pure (
              ok (
                declined
                  (new_problem unauthorized "authority token expired before issuance dispatch")))
          else do
            evidence ← validation_evidence a
            on evidence (λ e. pure (err e))
                λ v. collect now ids (read ++ (a ∷ [])) (record state {
                  validations = state.validations ++ (v ∷ []);
                  deadline = narrowed state.deadline a;
                })

  unfoldable pub issuance_authorization : String → Order → Time → Run (Result Proposal)
  unfolding collect
  issuance_authorization operation_id order now = collect now order.authorization_ids [] (record {
    operation_id = operation_id;
    authorized_at = now;
    deadline = order.expires;
    validations = [];
  })

-- The earliest grant expiry among the validations, or 0 where none is bounded; `bound` so far.
abbrev pub narrow_grant : List Validation → Time → Time
narrow_grant [] bound = bound
narrow_grant (v ∷ vs) bound = narrow_grant vs (
    if not (is_zero v.grant_expires) && (is_zero bound || before v.grant_expires bound)
    then v.grant_expires
    else bound)

unfoldable pub grant_expiry : List Validation → Time
grant_expiry vs = narrow_grant vs 0

abbrev pub grant_bound : Option IssuanceState → Time
grant_bound none = 0
grant_bound (some state) = grant_expiry state.validations

-- The notAfter that the CA is asked for.
unfoldable pub issued_not_after : Order → Time
unfolding grant_expiry
issued_not_after o =
    let bound = grant_bound o.issuance in
    if not (is_zero bound) && (is_zero o.not_after || after o.not_after bound)
    then bound
    else o.not_after
