-- ===== src/Tests/Responses.antt =====
-- A bad nonce, answered by a server whose limiter refuses.
use go_acme_server.Prelude.{ℕ, arith, false, none, some, List, [], ◌∷◌, Option, String}
use go_acme_server.Problem.{rate_limited, bad_nonce, new_problem}
use go_acme_server.Memstore.{new_store}
use go_acme_server.Nonce.{new_manager}
use go_acme_server.Server.{Server, World, final, pure, ask_limiter, ◌>>=◌}
use go_acme_server.Answer.{check_limit, host_problem}
use go_acme_server.Responses.{write_problem, write_problem_without_nonce}
use go_acme_server.Responses.Nonces.{IsFair, NeverBadNonce, write_problem-IsFair}
use go_acme_server.Tests.Data.{a_server}

abbrev limited : Server
limited = record a_server {
  limits = some (λ n req. some (final (new_problem rate_limited "later")));
}

abbrev idle : World
idle = record { nonces = new_manager 60 2; store = new_store; steps = 0 }

abbrev draws : ℕ → List (Option String)
draws n = some "n1" ∷ []

refused_later : NeverBadNonce limited idle
unfolding check_limit host_problem ask_limiter ◌>>=◌ pure
refused_later refusal h = ground arith

write_problem-IsFair_example : IsFair limited idle false (record {
  status = 429;
  nonce = none;
  document = some (new_problem rate_limited "later");
  text = none;
})
unfolding write_problem write_problem_without_nonce check_limit host_problem ask_limiter ◌>>=◌ pure
write_problem-IsFair_example =
    write_problem-IsFair limited draws false (new_problem bad_nonce "unknown") idle refused_later
