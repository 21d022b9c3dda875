-- ===== src/Responses/Nonces.antt =====
-- server.go: when a problem document comes with a nonce.
use go_acme_server.Prelude.{
  ℕ, ◌≡◌, ◌≢◌, ◌⊎◌, inl, inr, refl, arith, Bool, true, false, String, Option, none, some, List,
  Bool-cases, Option-cases,
}
use go_acme_server.Problem.{Problem}
use go_acme_server.Server.{Server, World, pure, ◌>>=◌}
use go_acme_server.Answer.{check_limit}
use go_acme_server.Responses.{
  Reply, is_bad_nonce, for_nonce, write_problem_without_nonce, add_nonce, write_problem,
}

-- What the limiter says of a nonce for the client.
abbrev pub IsAllowed : Server → World → Type 0
IsAllowed s w = (check_limit s for_nonce w).0 ≡ none

abbrev pub NeverBadNonce : Server → World → Type 0
NeverBadNonce s w =
    (refusal : Problem)
    → (check_limit s for_nonce w).0 ≡ some refusal
    → is_bad_nonce refusal ≡ false

-- A nonce is tried for only where it may be, and a badNonce document has one that was tried for.
abbrev pub IsFair : Server → World → Bool → Reply → Type 0
IsFair s w spent reply =
    (reply.nonce ≢ none → (spent ≡ true) ⊎ IsAllowed s w)
    × ((q : Problem) → reply.document ≡ some q → is_bad_nonce q ≡ true → reply.nonce ≢ none)

-- A problem document tries for a nonce only where the request spent one or the limiter allows one,
-- and every badNonce document tries for one, as long as the limiter refuses with no badNonce of its
-- own.
pub write_problem-IsFair :
    (s : Server) (draws : ℕ → List (Option String)) (spent : Bool) (p : Problem) (w : World)
    (own : NeverBadNonce s w)
    → IsFair s w spent (write_problem s draws spent p w).0
unfolding write_problem add_nonce ◌>>=◌ pure write_problem_without_nonce
write_problem-IsFair s draws true p w own = (λ h. inl refl, λ q h k e. ground arith)
write_problem-IsFair s draws false p w own = elim (Option-cases (check_limit s for_nonce w).0) [
  | inl allowed ↦ (λ h. inr allowed, λ q h k e. ground arith)
  | inr (refusal, refused) ↦
      let other = own refusal refused in
      elim (Bool-cases (is_bad_nonce p)) [
        | inl bad ↦ (λ h. absurd (ground arith), λ q h k e. ground arith)
        | inr good ↦ (λ h. absurd (ground arith), λ q h k e. ground arith)
      ]
]
