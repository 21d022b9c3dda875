-- ===== src/Renewal/Info.antt =====
-- renewal.go: the answer of the renewalInfo resource. The advisor of the host is a parameter.
use go_acme_server.Prelude.{ℕ, ◌*◌, not, String, Option, none, some, [], ◌=?◌, if◌then◌else◌}
use go_acme_server.Problem.{Problem, new_problem, server_internal}
use go_acme_server.Resource.{Time, Certificate, after}
use go_acme_server.Memstore.Certificates.{certificate_by_renewal_id}
use go_acme_server.Server.{
  Server, Run, HostError, final, LimitRequest, limit_renewal_info, pure, call, ask_host, on, ◌>>=◌,
}
use go_acme_server.Answer.{
  Answer, accepted, refused, unless, resource_not_found, store_problem, check_limit,
}
use go_acme_server.Wire.{format_time}
use go_acme_server.Renewal.{valid_renewal_id}

-- `RenewalInfo`; a wait of 0 selects the default.
pub record RenewalInfo : Type 0 where
  pub start : Time
  pub end : Time
  pub explanation_url : String
  pub retry_after : ℕ

-- `renewalInfoJSON`, with the time to wait.
pub record RenewalView : Type 0 where
  pub start : String
  pub end : String
  pub explanation_url : String
  pub retry_after : ℕ

abbrev pub default_renewal_retry_after : ℕ
default_renewal_retry_after = 6 * 3600 * 1000000000

abbrev pub unavailable : Problem
unavailable = new_problem server_internal "renewal information unavailable"

abbrev pub renewal_limit : LimitRequest
renewal_limit = record {
  kind = limit_renewal_info;
  account = none;
  identifiers = [];
  replaces = "";
  pending_validations = 0;
}

module _ (s : Server) where
  -- What the advisor said of the certificate.
  unfoldable pub renewal_view : RenewalInfo × Option HostError → Answer RenewalView
  renewal_view (info, some (final p)) = refused p
  renewal_view (info, some e) = refused unavailable
  renewal_view (info, none) =
      if not (after info.end info.start)
      then refused unavailable
      else accepted (record {
        start = format_time s info.start;
        end = format_time s info.end;
        explanation_url = info.explanation_url;
        retry_after =
            if info.retry_after =? 0 then default_renewal_retry_after else info.retry_after;
      })

  -- `serveRenewalInfo`, for a GET or HEAD request.
  unfoldable pub serve_renewal_info :
      Option (ℕ → Certificate → RenewalInfo × Option HostError) → String → Run (Answer RenewalView)
  unfolding valid_renewal_id check_limit renewal_view
  serve_renewal_info none id = pure (refused resource_not_found)
  serve_renewal_info (some advisor) id =
      if not (valid_renewal_id id) then pure (refused resource_not_found) else do
        limited ← check_limit s renewal_limit
        unless limited do
          found ← call s (λ c. certificate_by_renewal_id c id)
          on found (λ e. pure (refused (store_problem e "certificate")))
              λ cert. do answer ← ask_host s (λ n. advisor n cert); pure (renewal_view answer)
