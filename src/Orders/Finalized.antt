-- ===== src/Orders/Finalized.antt =====
-- finalize.go: what an order that goes to the CA has shown.
use go_acme_server.Prelude.{◌≡◌, ◌⊎◌, Bool, true, String, some, List, [], ◌∷◌, ◌++◌}
use go_acme_server.Exec.{◌>>=◌ as ◌>>=ₛ◌}
use go_acme_server.Table.{get, string_eq}
use go_acme_server.Memstore.Authorizations.{authorization}
use go_acme_server.Problem.{Identifier}
use go_acme_server.Resource.{Bytes, Account, Order, Authorization}
use go_acme_server.Server.{Server, World, call, ◌>>=◌}
use go_acme_server.Certs.{CertificateRequest, X509, found, csr_ca_certificate}
use go_acme_server.Certs.Accepted.{IsAccepted}
use go_acme_server.Orders.New.{has_text}

-- Each authorization granted a CA certificate exactly where one is asked for.
abbrev pub AllGrant : Bool → List Authorization → Type 0
AllGrant requested [] = Unit
AllGrant requested (a ∷ more) = (a.ca_certificate ≡ requested) × AllGrant requested more

-- What the authorizations granted beyond their identifiers, one after the other.
abbrev pub AreGrants : List Authorization → List Identifier → Type 0
AreGrants [] names = names ≡ []
AreGrants (a ∷ more) names =
    (rest : List Identifier) × (names ≡ a.grant_names ++ rest) × AreGrants more rest

module _ (s : Server) (x : X509) where
  -- Each ID names its authorization in the store at the step of its turn: other requests act before
  -- every read.
  abbrev pub AreRead : World → List String → List Authorization → Type 0
  AreRead w [] [] = Unit
  AreRead w (id ∷ ids) (a ∷ more) =
      (get id (s.interfere w.steps w.store).authzs ≡ some a)
      × AreRead (call s (λ c. authorization c id) w).1 ids more
  AreRead w _ _ = ⊥

  -- What a request for a ready order has shown, with the authorizations that were read of it.
  abbrev pub IsFinalizable :
      Account → Order → Bytes → World → CertificateRequest → List Authorization → Bool → Type 0
  IsFinalizable account o der w csr authzs requested =
      ((o.profile ≡ "") ⊎ (has_text o.profile s.config.profiles ≡ true))
      × AreRead w o.authorization_ids authzs
      × ((granted : List Identifier) × AreGrants authzs granted
          × IsAccepted x s.platform der o account granted csr)
      × (csr_ca_certificate x s.platform csr.subject.extensions ≡ found requested)
      × AllGrant requested authzs
