-- ===== src/Certs/Chain.antt =====
-- chain.go: the identities of a certificate, and the checks of an issued chain.
use go_acme_server.Prelude.{
  ℕ, ◌+◌, Bool, true, false, not, ◌&&◌, ◌||◌, String, ◌==◌, Option, none, some, List, [], ◌∷◌, ◌++◌,
  if◌then◌else◌,
}
use go_acme_server.Platform.{Platform}
use go_acme_server.Problem.{ip, tn_auth_list, Identifier}
use go_acme_server.Resource.{Bytes, Time, Order, Validation, IssuanceState, after, before, is_zero}
use go_acme_server.Identifiers.{
  canonical, invalid, named, normalize, contains, NormalizedAll, all_canonical, some_invalid,
  normalize_identifiers,
}
use go_acme_server.Renewal.{truncate_second}
use go_acme_server.Worker.Evidence.{grant_expiry, grant_bound, issued_not_after}
use go_acme_server.Certs.{
  Ip, Subject, CertificateRequest, Leaf, X509, Found, found, unacceptable, check_san_extensions,
  tn_auth_list_extension, csr_ca_certificate, uri_name_identifier, has_type, common_name_exempt,
  common_name_identifier, dns_identifiers, optional, covers_identifiers,
}
use go_acme_server.Certs.Request.{same_bytes}

-- The CA's answer to `checkChain`: the leaf, or why the chain is refused.
pub data Chained : Type 0 where
  good_chain : Leaf → Chained
  bad_chain : String → Chained
  -- The basic constraints of the request cannot be read.
  bad_constraints : Chained
  -- The element that does not parse, or is not signed by the next.
  bad_element unsigned_element : ℕ → Chained

pub data Parsed : Type 0 where
  parsed : List Leaf → Parsed
  unparsed : ℕ → Parsed

abbrev pub same_flag : Bool → Bool → Bool
same_flag true b = b
same_flag false b = not b

module _ (x : X509) (p : Platform) where
  unfoldable pub cert_uris : List String → Found (List Identifier)
  unfolding uri_name_identifier
  cert_uris [] = found []
  cert_uris (uri ∷ uris) =
      let rest = cert_uris uris in
      elim (uri_name_identifier x p uri) [
        | invalid e ↦ unacceptable
        | canonical id ↦ elim rest [ unacceptable ↦ unacceptable | found ids ↦ found (id ∷ ids) ]
      ]

  unfoldable pub cert_ips : List Ip → Found (List Identifier)
  cert_ips [] = found []
  cert_ips (a ∷ more) =
      let rest = cert_ips more in
      elim a.unmapped [
        | none ↦ unacceptable
        | some text ↦ elim rest [
          | unacceptable ↦ unacceptable
          | found ids ↦ found (named ip text ∷ ids)
        ]
      ]

  abbrev pub nonempty : NormalizedAll → Found (List Identifier)
  nonempty (some_invalid e) = unacceptable
  nonempty (all_canonical []) = unacceptable
  nonempty (all_canonical (id ∷ ids)) = found (id ∷ ids)

  abbrev pub with_list : {A B : Type 0} → Found A → (A → Found B) → Found B
  with_list unacceptable go = unacceptable
  with_list (found a) go = go a

  -- `certificateSANs`
  unfoldable pub certificate_sans : Subject → Found (List Identifier)
  unfolding check_san_extensions tn_auth_list_extension cert_uris cert_ips normalize_identifiers
  certificate_sans leaf =
      if not (check_san_extensions x p leaf.extensions)
      then unacceptable
      else with_list (tn_auth_list_extension x p leaf.extensions) λ list.
        with_list (cert_uris leaf.uris) λ uris. with_list (cert_ips leaf.ip_addresses) λ ips.
          nonempty (
            normalize_identifiers p
              (optional x p list ++ uris ++ dns_identifiers x p leaf.dns_names ++ ips))

  -- `certificateCommonName`, none for the zero identifier.
  unfoldable pub certificate_common_name : Subject → List Identifier → Found (Option Identifier)
  unfolding common_name_exempt common_name_identifier normalize
  certificate_common_name leaf ids =
      if leaf.common_name == "" || common_name_exempt x p ids
      then found none
      else elim (normalize p (common_name_identifier x p leaf.common_name)) [
        | invalid e ↦ unacceptable
        | canonical id ↦ found (some id)
      ]

  -- `cn.Value != "" && !slices.Contains(ids, cn)`
  abbrev pub is_outside : Option Identifier → List Identifier → Bool
  is_outside none ids = false
  is_outside (some cn) ids = not (cn.value == "") && not (contains cn ids)

  -- `certificateIdentifiers`
  unfoldable pub certificate_identifiers : Subject → Found (List Identifier)
  unfolding certificate_sans certificate_common_name
  certificate_identifiers leaf = with_list (certificate_sans leaf) λ ids.
      with_list (certificate_common_name leaf ids)
        λ cn. if is_outside cn ids then unacceptable else found ids

  -- `revocationIdentifiers`
  unfoldable pub revocation_identifiers : Subject → Found (List Identifier)
  unfolding certificate_sans certificate_common_name
  revocation_identifiers leaf = with_list (certificate_sans leaf) λ ids.
      with_list (certificate_common_name leaf ids)
        λ cn. found (if is_outside cn ids then ids ++ optional x p cn else ids)

  -- `grantedNames`
  unfoldable pub granted_names : List Validation → List Identifier
  granted_names [] = []
  granted_names (v ∷ vs) = v.names ++ granted_names vs

  abbrev pub issuance_names : Option IssuanceState → List Identifier
  unfolding granted_names
  issuance_names none = []
  issuance_names (some state) = granted_names state.validations

  -- `checkLeafCACertificate`
  unfoldable pub check_leaf_ca : Leaf → CertificateRequest → Order → Chained
  unfolding csr_ca_certificate
  check_leaf_ca leaf csr order =
      if not (has_type x p tn_auth_list order.identifiers)
      then if leaf.is_ca
        then bad_chain "leaf is a CA certificate but the order did not authorize one"
        else good_chain leaf
      else elim (csr_ca_certificate x p csr.subject.extensions) [
        | unacceptable ↦ bad_constraints
        | found requested ↦
            if not (same_flag leaf.is_ca requested)
            then bad_chain "leaf CA basic constraint does not match the certificate request"
            else good_chain leaf
      ]

  unfoldable pub parse_chain : ℕ → List Bytes → Parsed
  parse_chain i [] = parsed []
  parse_chain i (der ∷ ders) =
      let rest = parse_chain (i + 1) ders in
      elim (x.parse_certificate der) [
        | none ↦ unparsed i
        | some cert ↦ elim rest [ unparsed j ↦ unparsed j | parsed certs ↦ parsed (cert ∷ certs) ]
      ]

  -- The first element that the next one did not sign.
  unfoldable pub check_links : ℕ → List Leaf → Option ℕ
  check_links i [] = none
  check_links i (cert ∷ []) = none
  check_links i (cert ∷ parent ∷ certs) =
      let rest = check_links (i + 1) (parent ∷ certs) in
      if not (x.is_signed_by cert parent) then some i else rest

  -- The checks of the validity of a leaf.
  unfoldable pub check_validity : Leaf → Order → Time → Option String
  unfolding grant_expiry issued_not_after
  check_validity leaf order now =
      let start = truncate_second order.not_before in
      let bound = grant_bound order.issuance in
      let requested = issued_not_after order in
      if not (after leaf.not_after now) || not (after leaf.not_after leaf.not_before)
      then some "leaf certificate validity is invalid or expired"
      else if before leaf.not_before start
      then some "leaf notBefore is earlier than the accepted order"
      else if after leaf.not_before now && after leaf.not_before start
      then some "leaf certificate is not valid yet"
      else if not (is_zero bound) && after leaf.not_after bound
      then some "leaf certificate outlives the authority token"
      else if not (is_zero requested) && after leaf.not_after (truncate_second requested)
      then some "leaf notAfter is later than the requested validity"
      else none

  unfoldable pub leaf_covers : Leaf → Order → Bool
  unfolding certificate_identifiers covers_identifiers
  leaf_covers leaf order = elim (certificate_identifiers leaf.subject) [
    | unacceptable ↦ false
    | found ids ↦ covers_identifiers ids order.identifiers (issuance_names order.issuance)
  ]

  -- The links are checked last.
  unfoldable pub check_signatures : List Leaf → Chained → Chained
  unfolding check_links
  check_signatures certs (good_chain l) = elim (check_links 0 certs) [
    | some i ↦ unsigned_element i
    | none ↦ good_chain l
  ]
  check_signatures certs bad = bad

  -- The checks of the leaf and of the links.
  unfoldable pub check_leaf : Leaf → List Leaf → CertificateRequest → Order → Time → Chained
  unfolding check_validity leaf_covers check_leaf_ca check_signatures
  check_leaf leaf certs csr order now =
      if not (same_bytes leaf.spki csr.spki)
      then bad_chain "leaf public key does not match the CSR"
      else elim (check_validity leaf order now) [
        | some e ↦ bad_chain e
        | none ↦
            if not (leaf_covers leaf order)
            then bad_chain "leaf identifiers do not match the order"
            else check_signatures (leaf ∷ certs) (check_leaf_ca leaf csr order)
      ]

  abbrev pub check_parsed_chain : Parsed → CertificateRequest → Order → Time → Chained
  unfolding check_leaf
  check_parsed_chain (unparsed i) csr order now = bad_element i
  check_parsed_chain (parsed []) csr order now = bad_chain "empty chain"
  check_parsed_chain (parsed (leaf ∷ certs)) csr order now = check_leaf leaf certs csr order now

  -- `checkChain`
  unfoldable pub check_chain : List Bytes → CertificateRequest → Order → Time → Chained
  unfolding parse_chain check_leaf
  check_chain chain csr order now = check_parsed_chain (parse_chain 0 chain) csr order now
