-- ===== src/Answer.antt =====
-- The answers of the request handlers: a value, or the problem that the client receives.
use go_acme_server.Prelude.{◌≡◌, ◌⊎◌, inl, inr, refl, Option, none, some, String, concat}
use go_acme_server.Exec.{StoreError, not_found}
use go_acme_server.Problem.{Problem, new_problem, with_status, malformed, server_internal}
use go_acme_server.Server.{Server, Run, HostError, final, LimitRequest, pure, ask_limiter, ◌>>=◌}

pub data Answer (A : Type 0) : Type 0 where
  accepted : A → Answer A
  refused : Problem → Answer A

pub Answer-cases :
    {A : Type 0} (r : Answer A) → ((a : A) × (r ≡ accepted a)) ⊎ ((p : Problem) × (r ≡ refused p))
Answer-cases (accepted a) = inl (a, refl)
Answer-cases (refused p) = inr (p, refl)

-- `if p != nil { return p }`
abbrev pub then_with : {A B : Type 0} → Answer A → (A → Run (Answer B)) → Run (Answer B)
then_with (accepted a) go = go a
then_with (refused p) go = pure (refused p)

abbrev pub unless : {B : Type 0} → Option Problem → Run (Answer B) → Run (Answer B)
unless none go = go
unless (some p) go = pure (refused p)

-- `hostProblem` of account.go.
unfoldable pub host_problem : Option HostError → String → Option Problem
host_problem none what = none
host_problem (some (final p)) what = some p
host_problem (some e) what = some (new_problem server_internal (concat what " failed"))

-- `notFound` of server.go.
abbrev pub resource_not_found : Problem
resource_not_found = with_status 404 (new_problem malformed "unknown resource")

-- `storeProblem` of wire.go.
abbrev pub store_problem : StoreError → String → Problem
store_problem not_found resource = resource_not_found
store_problem e resource = new_problem server_internal (concat resource " lookup failed")

module _ (s : Server) where
  -- `checkLimit` of limit.go.
  unfoldable pub check_limit : LimitRequest → Run (Option Problem)
  unfolding host_problem
  check_limit req = do
    answer ← ask_limiter s s.limits req
    pure (host_problem answer "rate limit check")
