-- ===== src/Responses.antt =====
-- server.go: problem documents with their nonce, newNonce, and the pages of the profiles. Of a
-- response it is the status, the call of `Issue`, and the document. The method is a text.
pub mod Nonces
use go_acme_server.Prelude.{
  ℕ, suc, Bool, true, false, not, ◌||◌, String, ◌==◌, Option, none, some, List, [], ◌∷◌,
  if◌then◌else◌, concat, ◌≡◌, arith, refl, Option-cases, inl, inr,
}
use go_acme_server.Problem.{
  ErrorType, bad_nonce, malformed, server_internal, Problem, problem, new_problem, http_status,
  with_status,
}
use go_acme_server.Nonce.{Issued, issued, context_error, read_error, drawing, issue}
use go_acme_server.Settings.{Profile}
use go_acme_server.Server.{Server, World, Run, LimitRequest, limit_new_nonce, pure, ◌>>=◌}
use go_acme_server.Answer.{check_limit}

pub record Reply : Type 0 where
  pub status : ℕ
  -- What `Issue` returned, none where it was not called. The header has the nonce that it issued.
  pub nonce : Option Issued
  pub document : Option Problem
  pub text : Option String

-- `writeProblemWithoutNonce`
unfoldable pub write_problem_without_nonce : Problem → Reply
write_problem_without_nonce p = record {
  status = http_status p;
  nonce = none;
  document = some p;
  text = none;
}

-- `p.Type == ErrorBadNonce`
abbrev pub is_bad_nonce : Problem → Bool
is_bad_nonce (problem bad_nonce d n i s a r) = true
is_bad_nonce _ = false

-- `LimitRequest{Kind: LimitNewNonce}`
abbrev pub for_nonce : LimitRequest
for_nonce = record {
  kind = limit_new_nonce;
  account = none;
  identifiers = [];
  replaces = "";
  pending_validations = 0;
}

-- `notFound`
abbrev pub not_found_problem : Problem
not_found_problem = with_status 404 (new_problem malformed "unknown resource")

abbrev pub is_read : String → Bool
is_read method = method == "GET" || method == "HEAD"

-- The profile with a name.
unfoldable pub find_profile : List Profile → String → Option Profile
find_profile [] name = none
find_profile (p ∷ ps) name = if p.name == name then some p else find_profile ps name

-- `draws n` is what the random source would answer from step `n` on.
module _ (s : Server) (draws : ℕ → List (Option String)) where
  -- `s.nonces.Issue`, after what other requests did with their nonces.
  unfoldable pub issue_nonce : Run Issued
  unfolding issue
  issue_nonce w =
      let (r, nonces) =
        issue (s.ctx w.steps) (s.interfere_nonces w.steps w.nonces) (draws w.steps)
          (s.clock w.steps) in
      (r, record w { nonces = nonces; store = s.interfere w.steps w.store; steps = suc w.steps })

  -- `addNonce`
  unfoldable pub add_nonce : Reply → Run Reply
  unfolding issue_nonce
  add_nonce reply = do r ← issue_nonce; pure (record reply { nonce = some r })

  abbrev pub refused_nonce : Problem → Problem → Reply
  unfolding write_problem_without_nonce
  refused_nonce p refusal = write_problem_without_nonce (if is_bad_nonce p then refusal else p)

  -- `writeProblem`, for a request that spent a nonce or did not.
  unfoldable pub write_problem : Bool → Problem → Run Reply
  unfolding check_limit write_problem_without_nonce add_nonce
  write_problem true p = add_nonce (write_problem_without_nonce p)
  write_problem false p = do
    limited ← check_limit s for_nonce
    elim limited [
      | some refusal ↦ pure (refused_nonce p refusal)
      | none ↦ add_nonce (write_problem_without_nonce p)
    ]

  -- `writeMethodNotAllowed`
  unfoldable pub write_method_not_allowed : Run Reply
  unfolding write_problem
  write_method_not_allowed =
      write_problem false (with_status 405 (new_problem malformed "method not allowed"))

  -- While `Issue` is drawing, nothing has been sent.
  abbrev pub nonce_reply : String → Issued → Reply
  unfolding write_problem_without_nonce
  nonce_reply method (context_error e) =
      record (write_problem_without_nonce (new_problem server_internal "nonce issuance failed")) {
        nonce = some (context_error e);
      }
  nonce_reply method read_error =
      record (write_problem_without_nonce (new_problem server_internal "nonce issuance failed")) {
        nonce = some read_error;
      }
  nonce_reply method r = record {
    status = if method == "HEAD" then 200 else 204;
    nonce = some r;
    document = none;
    text = none;
  }

  -- `serveNewNonce`
  unfoldable pub serve_new_nonce : String → Run Reply
  unfolding check_limit write_problem_without_nonce issue_nonce write_method_not_allowed
  serve_new_nonce method = if not (is_read method) then write_method_not_allowed else do
    limited ← check_limit s for_nonce
    elim limited [
      | some refusal ↦ pure (write_problem_without_nonce refusal)
      | none ↦ do r ← issue_nonce; pure (nonce_reply method r)
    ]

  abbrev pub profile_reply : String → Option Profile → Run Reply
  unfolding write_problem
  profile_reply method none = write_problem false not_found_problem
  profile_reply method (some p) =
      if p.description == ""
      then write_problem false not_found_problem
      else pure (record {
        status = 200;
        nonce = none;
        document = none;
        text = if method == "GET" then some p.description else none;
      })

  -- `serveProfile`
  unfoldable pub serve_profile : List Profile → String → String → Run Reply
  unfolding find_profile write_problem write_method_not_allowed
  serve_profile profiles method name =
      if not (is_read method)
      then write_method_not_allowed
      else profile_reply method (find_profile profiles name)

  -- `resourceURL`
  unfoldable pub resource_url : String → String
  resource_url resource = concat s.config.base_url resource

  -- `profileURL`
  unfoldable pub profile_url : Profile → String
  unfolding resource_url
  profile_url p = if not (p.url == "") then p.url else resource_url (concat "profiles/" p.name)
