-- ===== src/Certs.antt =====
-- csr.go, chain.go, and `tnAuthListExtension` of tnauthlist.go: certificate requests and certificates.
-- What crypto/x509, encoding/asn1 and the SLH-DSA and composite key packages make of a DER value is
-- a parameter: a parsed request or certificate is what the program reads of it.
pub mod Request
pub mod Covering
pub mod Accepted
pub mod Chain
pub mod Issued
use Prim.Native.String
use Prim.Native.String.{String, len, slice}
use go_acme_server.Prelude.{
  ℕ, ◌+◌, Bool, true, false, not, ◌&&◌, ◌||◌, ◌==◌, Option, none, some, List, [], ◌∷◌, ◌++◌, ltb,
  leb, ◌=?◌, if◌then◌else◌, concat,
}
use go_acme_server.Platform.{Platform}
use go_acme_server.Problem.{
  IdentifierType, dns, ip, tn_auth_list, nf_instance_id, is_type, Identifier, Problem, new_problem,
  bad_csr,
}
use go_acme_server.Resource.{Bytes, Time}
use go_acme_server.TnAuthList.{check_tn_auth_list}
use go_acme_server.Identifiers.{
  Normalized, canonical, invalid, named, type_name, normalize, normalize_nf_instance_id,
  normalize_uri, contains, NormalizedAll, all_canonical, some_invalid, normalize_identifiers,
}

-- pkix.Extension.
pub record Extension : Type 0 where
  pub oid : List ℕ
  pub value : Bytes

-- asn1.RawValue, of a subject alternative name.
pub record RawName : Type 0 where
  pub is_context_specific : Bool
  pub is_compound : Bool
  pub tag : ℕ

-- The texts of an IP address: of net.IP, and of the netip.Addr without its IPv4-mapped form.
pub record Ip : Type 0 where
  pub text : String
  pub unmapped : Option String

-- The names of a request or a certificate.
pub record Subject : Type 0 where
  pub extensions : List Extension
  pub dns_names : List String
  pub ip_addresses : List Ip
  pub uris : List String
  pub common_name : String

pub data Curve : Type 0 where
  p256 p384 p521 other_curve : Curve

pub data PublicKey : Type 0 where
  -- The number of bits.
  rsa : ℕ → PublicKey
  ec : Curve → PublicKey
  ed25519 ml_dsa composite_ml_dsa slh_dsa other_key : PublicKey

pub record CertificateRequest : Type 0 where
  pub subject : Subject
  -- RawSubjectPublicKeyInfo.
  pub spki : Bytes
  -- `checkCSRSignature` and `parseCSRKey` of slhdsa.go.
  pub is_signed : Bool
  pub key : Option PublicKey
  -- compositex509.MarshalPKIXPublicKey of the key.
  pub key_der : Option Bytes

pub record Leaf : Type 0 where
  pub subject : Subject
  pub spki : Bytes
  pub not_before : Time
  pub not_after : Time
  pub is_ca : Bool
  -- `jws.Thumbprint` of the key, none where it has none.
  pub thumbprint : Option String

pub record X509 : Type 0 where
  -- x509.ParseCertificateRequest and ParseCertificate.
  pub parse_request : Bytes → Option CertificateRequest
  pub parse_certificate : Bytes → Option Leaf
  -- x509.MarshalPKIXPublicKey of an account's key, and its `jws.Thumbprint`.
  pub marshal_key : Bytes → Option Bytes
  pub thumbprint : Bytes → Option String
  -- asn1.Unmarshal of a sequence of names, and of the basic constraints, with what it leaves.
  pub unmarshal_names : Bytes → Option (List RawName × Bytes)
  pub unmarshal_constraints : Bytes → Option (Bool × Bytes)
  -- `checkSignatureFrom` of slhdsa.go.
  pub is_signed_by : Leaf → Leaf → Bool
  -- The SHA-256 of a DER value, in base64url.
  pub certificate_id : Bytes → String
  -- `renewalID` of ids.go.
  pub renewal_id : Leaf → String

abbrev pub same_oid : List ℕ → List ℕ → Bool
same_oid [] [] = true
same_oid (a ∷ xs) (b ∷ ys) = a =? b && same_oid xs ys
same_oid _ _ = false

abbrev pub basic_constraints_oid : List ℕ
basic_constraints_oid = 2 ∷ 5 ∷ 29 ∷ 19 ∷ []

abbrev pub alternative_name_oid : List ℕ
alternative_name_oid = 2 ∷ 5 ∷ 29 ∷ 17 ∷ []

abbrev pub tn_auth_list_oid : List ℕ
tn_auth_list_oid = 1 ∷ 3 ∷ 6 ∷ 1 ∷ 5 ∷ 5 ∷ 7 ∷ 1 ∷ 26 ∷ []

abbrev pub is_end : Bytes → Bool
is_end [] = true
is_end _ = false

abbrev pub is_supported_name : RawName → Bool
is_supported_name n =
    n.is_context_specific && not n.is_compound && (n.tag =? 2 || n.tag =? 6 || n.tag =? 7)

abbrev pub all_supported : List RawName → Bool
all_supported [] = true
all_supported (n ∷ ns) = is_supported_name n && all_supported ns

-- The names of a certificate or request: a list, or an error.
pub data Found (A : Type 0) : Type 0 where
  found : A → Found A
  unacceptable : Found A

module _ (x : X509) (p : Platform) where
  abbrev pub names_supported : Option (List RawName × Bytes) → Bool
  names_supported none = false
  names_supported (some (names, rest)) = is_end rest && all_supported names

  -- `checkSANExtensions`, true where it returns no error.
  unfoldable pub check_san_extensions : List Extension → Bool
  check_san_extensions [] = true
  check_san_extensions (e ∷ es) =
      let rest = check_san_extensions es in
      if not (same_oid e.oid alternative_name_oid)
      then rest
      else if not (names_supported (x.unmarshal_names e.value))
      then false
      else rest

  -- The extensions with the given OID.
  abbrev pub with_oid : List ℕ → List Extension → List Bytes
  with_oid oid [] = []
  with_oid oid (e ∷ es) =
      let rest = with_oid oid es in if same_oid e.oid oid then e.value ∷ rest else rest

  -- `tnAuthListExtension`: the identifier where there is one extension.
  abbrev pub only_list : List Bytes → Found (Option Identifier)
  only_list [] = found none
  only_list (value ∷ []) =
      if not (check_tn_auth_list value)
      then unacceptable
      else found (some (named tn_auth_list (p.encode_base64 value)))
  only_list (value ∷ again ∷ more) = unacceptable

  unfoldable pub tn_auth_list_extension : List Extension → Found (Option Identifier)
  tn_auth_list_extension extensions = only_list (with_oid tn_auth_list_oid extensions)

  abbrev pub only_constraint : List Bytes → Found Bool
  only_constraint [] = found false
  only_constraint (value ∷ []) = elim (x.unmarshal_constraints value) [
    | none ↦ unacceptable
    | some (is_ca, rest) ↦ if not (is_end rest) then unacceptable else found is_ca
  ]
  only_constraint (value ∷ again ∷ more) = unacceptable

  -- `csrCACertificate`
  unfoldable pub csr_ca_certificate : List Extension → Found Bool
  csr_ca_certificate extensions = only_constraint (with_oid basic_constraints_oid extensions)

  abbrev pub nf_instance_urn_prefix : String
  nf_instance_urn_prefix = "urn:uuid:"

  -- `uriNameIdentifier`
  unfoldable pub uri_name_identifier : String → Normalized
  unfolding normalize_nf_instance_id normalize_uri
  uri_name_identifier name =
      let n = len nf_instance_urn_prefix in
      if ltb n (len name) && p.equal_fold (slice name 0 n) nf_instance_urn_prefix
      then normalize_nf_instance_id p (slice name n (len name))
      else normalize_uri p name

  abbrev pub has_type : IdentifierType → List Identifier → Bool
  has_type kind [] = false
  has_type kind (id ∷ ids) = is_type id.kind kind || has_type kind ids

  abbrev pub is_list_alone : List Identifier → Bool
  is_list_alone (id ∷ []) = is_type id.kind tn_auth_list
  is_list_alone _ = false

  -- `commonNameExempt`
  unfoldable pub common_name_exempt : List Identifier → Bool
  common_name_exempt ids = is_list_alone ids || has_type nf_instance_id ids

  -- `commonNameIdentifier`
  unfoldable pub common_name_identifier : String → Identifier
  common_name_identifier name = elim (p.parse_addr name) [
    | some a ↦ named ip name
    | none ↦ named dns name
  ]

  abbrev pub dns_identifiers : List String → List Identifier
  dns_identifiers [] = []
  dns_identifiers (name ∷ names) = named dns name ∷ dns_identifiers names

  abbrev pub optional : Option Identifier → List Identifier
  optional none = []
  optional (some id) = id ∷ []

abbrev pub contains_all : List Identifier → List Identifier → Bool
contains_all names [] = true
contains_all names (id ∷ ids) = contains id names && contains_all names ids

abbrev pub within : List Identifier → List Identifier → List Identifier → Bool
within order granted [] = true
within order granted (id ∷ ids) =
    (contains id order || contains id granted) && within order granted ids

-- `coversIdentifiers`
unfoldable pub covers_identifiers : List Identifier → List Identifier → List Identifier → Bool
covers_identifiers names order granted = contains_all names order && within order granted names
