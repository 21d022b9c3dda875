-- ===== src/Orders/Certificate.antt =====
-- certificate.go: the download of a certificate. The PEM text is what encoding/pem makes of a chain.
use go_acme_server.Prelude.{not, String, ◌==◌, List, if◌then◌else◌, concat}
use go_acme_server.Problem.{new_problem, unauthorized}
use go_acme_server.Resource.{Bytes}
use go_acme_server.Memstore.Certificates.{certificate}
use go_acme_server.Server.{Server, Run, pure, call, on, ◌>>=◌}
use go_acme_server.Answer.{Answer, accepted, refused, then_with, unless, store_problem}
use go_acme_server.Requests.{Request}
use go_acme_server.Wire.{require_empty_payload}
use go_acme_server.Orders.Serve.{Wire, read_account_request}

module _ (s : Server) (wire : Wire) where
  -- `serveCertificate`: the chain of a certificate that the account ordered.
  unfoldable pub serve_certificate : Request → String → Run (Answer (List Bytes))
  unfolding read_account_request require_empty_payload
  serve_certificate r id = do
    read ← read_account_request s wire r (concat "cert/" id)
    then_with read λ (signed, account). do
      found ← call s (λ c. certificate c id)
      on found (λ e. pure (refused (store_problem e "certificate")))
          λ cert.
            if not (cert.account_id == account.id)
            then pure (
                refused
                  (new_problem unauthorized "the signing account does not own this certificate"))
            else unless (require_empty_payload signed) (pure (accepted cert.chain))
