-- ===== src/Certs/Request.antt =====
-- csr.go: the checks of a certificate request.
use go_acme_server.Prelude.{
  Bool, true, false, not, ◌&&◌, ◌||◌, String, ◌==◌, Option, none, some, List, [], ◌∷◌, ◌++◌, ltb,
  ◌=?◌, if◌then◌else◌, concat,
}
use go_acme_server.Platform.{Platform}
use go_acme_server.Problem.{ip, Identifier, Problem, new_problem, bad_csr, server_internal}
use go_acme_server.Resource.{Bytes, Account, Order}
use go_acme_server.Identifiers.{canonical, invalid, named, type_name, normalize, contains}
use go_acme_server.Answer.{Answer, accepted, refused}
use go_acme_server.Certs.{
  Ip, Subject, Curve, other_curve, PublicKey, rsa, ec, slh_dsa, other_key, CertificateRequest, X509,
  found, unacceptable, check_san_extensions, tn_auth_list_extension, uri_name_identifier,
  common_name_exempt, common_name_identifier, dns_identifiers, optional, covers_identifiers,
}

abbrev pub is_supported_curve : Curve → Bool
is_supported_curve other_curve = false
is_supported_curve _ = true

-- `checkCSRKey`
unfoldable pub check_csr_key : PublicKey → Option Problem
check_csr_key (rsa bits) =
    if ltb bits 2048 || ltb 4096 bits
    then some (new_problem bad_csr "CSR RSA key must have 2048 to 4096 bits")
    else none
check_csr_key (ec curve) =
    if not (is_supported_curve curve)
    then some (new_problem bad_csr "CSR EC key uses an unsupported curve")
    else none
check_csr_key other_key = some (new_problem bad_csr "CSR key type is not supported")
check_csr_key _ = none

abbrev pub is_slh_dsa : PublicKey → Bool
is_slh_dsa slh_dsa = true
is_slh_dsa _ = false

abbrev pub same_bytes : Bytes → Bytes → Bool
same_bytes [] [] = true
same_bytes (a ∷ xs) (b ∷ ys) = a =? b && same_bytes xs ys
same_bytes _ _ = false

abbrev pub ip_identifiers : List Ip → List Identifier
ip_identifiers [] = []
ip_identifiers (a ∷ xs) = named ip a.text ∷ ip_identifiers xs

abbrev pub bad_request : String → Problem
bad_request detail = new_problem bad_csr detail

module _ (x : X509) (p : Platform) where
  -- The identifiers of the URIs.
  unfoldable pub uri_identifiers : List String → Answer (List Identifier)
  unfolding uri_name_identifier
  uri_identifiers [] = accepted []
  uri_identifiers (uri ∷ uris) =
      let rest = uri_identifiers uris in
      elim (uri_name_identifier x p uri) [
        | invalid e ↦
            refused (bad_request (concat "CSR URI name " (concat uri " is not acceptable")))
        | canonical id ↦ elim rest [ refused e ↦ refused e | accepted ids ↦ accepted (id ∷ ids) ]
      ]

  abbrev pub with_common_name : String → List Identifier → List Identifier
  unfolding common_name_exempt common_name_identifier
  with_common_name name raw =
      if not (name == "") && not (common_name_exempt x p raw)
      then raw ++ (common_name_identifier x p name ∷ [])
      else raw

  -- The normalized identifiers, each once.
  unfoldable pub collect : List Identifier → List Identifier → Answer (List Identifier)
  unfolding normalize
  collect seen [] = accepted seen
  collect seen (id ∷ ids) = elim (normalize p id) [
    | invalid e ↦ refused (
        bad_request (
          concat "CSR identifier "
            (concat (type_name id.kind) (concat ":" (concat id.value " is not acceptable")))))
    | canonical n ↦
        let again = collect seen ids in
        let longer = collect (seen ++ (n ∷ [])) ids in
        if not (contains n seen) then longer else again
  ]

  abbrev pub normalized : List Identifier → Answer (List Identifier)
  unfolding collect
  normalized [] = refused (bad_request "CSR requests no identifiers")
  normalized (id ∷ ids) = collect [] (id ∷ ids)

  -- `csrIdentifiers`
  unfoldable pub csr_identifiers : Subject → Answer (List Identifier)
  unfolding tn_auth_list_extension uri_identifiers collect
  csr_identifiers csr = elim (tn_auth_list_extension x p csr.extensions) [
    | unacceptable ↦ refused (bad_request "CSR TN authorization list is not acceptable")
    | found list ↦ elim (uri_identifiers csr.uris) [
      | refused e ↦ refused e
      | accepted uris ↦ normalized (
          with_common_name csr.common_name (
            optional x p list
            ++ dns_identifiers x p csr.dns_names
            ++ ip_identifiers csr.ip_addresses
            ++ uris))
    ]
  ]

  -- An account key signs JWS, which SLH-DSA cannot, so only other keys are compared with it.
  unfoldable pub check_account_key : CertificateRequest → PublicKey → Account → Option Problem
  check_account_key csr key account =
      if is_slh_dsa key then none else elim (x.marshal_key account.key) [
        | none ↦ some (new_problem server_internal "account key could not be read")
        | some account_key ↦ elim csr.key_der [
          | none ↦ some (bad_request "CSR key could not be read")
          | some csr_key ↦
              if same_bytes csr_key account_key
              then some (bad_request "CSR key must not be the account key")
              else none
        ]
      ]

  -- The checks of the names, which are the last.
  unfoldable pub check_names :
      CertificateRequest → List Identifier → List Identifier → Answer CertificateRequest
  unfolding check_san_extensions csr_identifiers covers_identifiers
  check_names csr order granted =
      if not (check_san_extensions x p csr.subject.extensions)
      then refused (bad_request "CSR requests unsupported subject alternative name types")
      else elim (csr_identifiers csr.subject) [
        | refused e ↦ refused e
        | accepted requested ↦
            if not (covers_identifiers requested order granted)
            then refused (bad_request "CSR identifiers do not match the order")
            else accepted csr
      ]

  unfoldable pub check_key : CertificateRequest → PublicKey → Account → Option Problem
  unfolding check_csr_key check_account_key
  check_key csr key account = elim (check_csr_key key) [
    | some e ↦ some e
    | none ↦ check_account_key csr key account
  ]

  -- The checks of a request that was parsed.
  unfoldable pub check_parsed :
      CertificateRequest → Order → Account → List Identifier → Answer CertificateRequest
  unfolding check_key check_names
  check_parsed csr order account granted =
      if not csr.is_signed then refused (bad_request "CSR signature is invalid") else elim csr.key [
        | none ↦ refused (bad_request "CSR key could not be read")
        | some key ↦ elim (check_key csr key account) [
          | some e ↦ refused e
          | none ↦ check_names csr order.identifiers granted
        ]
      ]

  -- `checkCSR`
  unfoldable pub check_csr : Bytes → Order → Account → List Identifier → Answer CertificateRequest
  unfolding check_parsed
  check_csr der order account granted = elim (x.parse_request der) [
    | none ↦ refused (bad_request "CSR could not be parsed")
    | some csr ↦ check_parsed csr order account granted
  ]
