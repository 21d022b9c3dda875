-- ===== src/Identifiers.antt =====
-- identifier.go and `normalizeTNAuthList` of tnauthlist.go: the canonical form of an identifier.
pub mod Canonical
pub mod Set
use Prim.Native.String
use Prim.Native.String.{String, len}
use go_acme_server.Prelude.{
  ℕ, zero, suc, ◌+◌, Bool, true, false, not, ◌&&◌, ◌||◌, ◌==◌, Option, none, some, List, [], ◌∷◌,
  ◌++◌, ltb, leb, ◌=?◌, if◌then◌else◌, concat,
}
use Prim.Native.Char.{Char, code}
use text.Mathlib.Text.{starts_with}
use go_acme_server.Platform.{Platform, Addr, Uri}
use go_acme_server.Text.{all_chars, any_char, is_ascii, trim_prefix, to_lower, split}
use go_acme_server.Problem.{
  IdentifierType, dns, ip, tn_auth_list, nf_instance_id, uri, other, Identifier, same_identifier,
  Problem, new_problem, with_identifier, malformed, rejected_identifier, unsupported_identifier,
}
use go_acme_server.Resource.{Bytes}
use go_acme_server.TnAuthList.{check_tn_auth_list}

-- `(Identifier, error)`, where every error is a problem.
pub data Normalized : Type 0 where
  canonical : Identifier → Normalized
  invalid : Problem → Normalized

-- `rejected`
abbrev pub reject : Identifier → String → Normalized
reject id detail = invalid (with_identifier id (new_problem rejected_identifier detail))

abbrev pub named : IdentifierType → String → Identifier
named kind value = record { kind = kind; value = value }

abbrev pub is_hex : ℕ → Bool
is_hex n = leb 48 n && leb n 57 || leb 97 n && leb n 102

abbrev pub is_hyphen : ℕ → Bool
is_hyphen n = n =? 45

abbrev pub is_hyphen_position : ℕ → Bool
is_hyphen_position i = i =? 8 || i =? 13 || i =? 18 || i =? 23

-- The loop over the bytes, from the one at position `i`.
unfoldable pub is_uuid_from : ℕ → String → Bool
is_uuid_from i String.[] = true
is_uuid_from i (String.◌∷◌ c s) =
    (if is_hyphen_position i then is_hyphen (code c) else is_hex (code c)) && is_uuid_from (i + 1) s

abbrev pub type_name : IdentifierType → String
type_name dns = "dns"
type_name ip = "ip"
type_name tn_auth_list = "TNAuthList"
type_name nf_instance_id = "NfInstanceId"
type_name uri = "uri"
type_name (other t) = t

abbrev pub is_nil_byte : ℕ → Bool
is_nil_byte n = n =? 48 || n =? 45

-- A letter in lower case, a digit or a hyphen.
abbrev pub is_label_char : ℕ → Bool
is_label_char n = leb 97 n && leb n 122 || leb 48 n && leb n 57 || n =? 45

-- `label[0] == '-'`
abbrev pub first_is_hyphen : String → Bool
first_is_hyphen String.[] = false
first_is_hyphen (String.◌∷◌ c s) = is_hyphen (code c)

-- `label[len(label)-1] == '-'`
abbrev pub last_is_hyphen : String → Bool
last_is_hyphen String.[] = false
last_is_hyphen (String.◌∷◌ c String.[]) = is_hyphen (code c)
last_is_hyphen (String.◌∷◌ c (String.◌∷◌ d s)) = last_is_hyphen (String.◌∷◌ d s)

-- A character that may not stand in a uri identifier or an NF type.
abbrev pub is_printable : ℕ → Bool
is_printable n = ltb 32 n && ltb n 127

unfoldable pub valid_nf_type : String → Bool
valid_nf_type value = not (value == "") && not (ltb 32 (len value)) && all_chars is_printable value

-- What `normalizeTNAuthList` makes of the decoded value.
unfoldable pub check_decoded : Identifier → Option Bytes → Normalized
check_decoded id none = reject id "TNAuthList identifier is not unpadded base64url"
check_decoded id (some der) =
    if check_tn_auth_list der
    then canonical id
    else reject id "TNAuthList identifier is not a valid authority list"

module _ (p : Platform) where
  abbrev pub encodes_back : String → Option String → Bool
  encodes_back label none = false
  encodes_back label (some u_label) = elim (p.to_ascii u_label) [
    | none ↦ false
    | some a_label ↦ a_label == label
  ]

  unfoldable pub valid_a_label : String → Bool
  valid_a_label label = encodes_back label (p.to_unicode label)

  -- `checkDNSLabel`: what is wrong with a label, or the empty text.
  unfoldable pub check_dns_label : String → String
  unfolding valid_a_label
  check_dns_label label =
      if label == ""
      then "dns identifier contains an empty label"
      else if ltb 63 (len label)
      then "dns identifier label exceeds 63 characters"
      else if first_is_hyphen label || last_is_hyphen label
      then "dns identifier label starts or ends with a hyphen"
      else if not (all_chars is_label_char label)
      then "dns identifier contains a character outside letters, digits and hyphens"
      else if starts_with label "xn--" && not (valid_a_label label)
      then concat "dns identifier label " (concat label " is not a valid A-label")
      else ""

  -- The first label that is not valid says why the name is not.
  unfoldable pub check_labels : List String → String
  unfolding check_dns_label
  check_labels [] = ""
  check_labels (label ∷ labels) =
      let rest = check_labels labels in
      let reason = check_dns_label label in if not (reason == "") then reason else rest

  -- The checks behind the lower-casing.
  unfoldable pub check_dns_name : Identifier → String → Normalized
  unfolding check_labels trim_prefix split
  check_dns_name id name =
      let base = trim_prefix name "*." in
      let reason = check_labels (split 46 base) in
      if ltb 253 (len name)
      then reject id "dns identifier exceeds 253 characters"
      else if any_char (λ n. n =? 42) base
      then reject id "wildcard is only allowed as the complete leftmost label"
      else if base == ""
      then reject id "dns identifier has no labels"
      else elim (p.parse_addr base) [
        | some a ↦ reject id "IP addresses use the ip identifier type"
        | none ↦
            if not (reason == "")
            then reject id reason
            else canonical (record { kind = dns; value = name })
      ]

  unfoldable pub normalize_dns : String → Normalized
  unfolding check_dns_name to_lower
  normalize_dns value =
      let id = named dns value in
      if value == ""
      then invalid (new_problem malformed "dns identifier value is empty")
      else if not (all_chars is_ascii value)
      then reject id
          "dns identifier must use ASCII labels; encode internationalized names as A-labels"
      else check_dns_name id (to_lower p value)

  -- The checks of `normalizeIP` on the parsed address.
  abbrev pub check_addr : Identifier → Option Addr → Normalized
  check_addr id none = reject id "ip identifier is not a valid IP address"
  check_addr id (some a) =
      if not (a.zone == "")
      then reject id "ip identifier must not carry a zone"
      else if a.is_4in6
      then reject id "IPv4-mapped IPv6 addresses must be given in IPv4 form"
      else if a.is_unspecified || a.is_multicast
      then reject id "unspecified and multicast addresses cannot be issued"
      else canonical (record { kind = ip; value = a.text })

  unfoldable pub normalize_ip : String → Normalized
  normalize_ip value =
      let checked = check_addr (record { kind = ip; value = value }) (p.parse_addr value) in
      if value == ""
      then invalid (new_problem malformed "ip identifier value is empty")
      else checked

  unfoldable pub normalize_tn_auth_list : String → Normalized
  normalize_tn_auth_list value =
      let decoded = check_decoded (named tn_auth_list value) (p.decode_base64 value) in
      if value == ""
      then invalid (new_problem malformed "TNAuthList identifier value is empty")
      else decoded

  unfoldable pub normalize_nf_instance_id : String → Normalized
  unfolding to_lower is_uuid_from
  normalize_nf_instance_id value =
      let id = named nf_instance_id value in
      let lower = to_lower p value in
      if value == ""
      then invalid (new_problem malformed "NfInstanceId identifier value is empty")
      else if not (len value =? 36)
      then reject id "NfInstanceId identifier is not a UUID"
      else if not (is_uuid_from 0 lower)
      then reject id "NfInstanceId identifier is not a UUID"
      else if all_chars is_nil_byte lower
      then reject id "NfInstanceId identifier is the nil UUID"
      else canonical (record { kind = nf_instance_id; value = lower })

  abbrev pub unusable_uri : Uri → Bool
  unusable_uri u =
      not (p.equal_fold u.scheme "https")
      || u.host == ""
      || u.has_user
      || not (u.fragment == "")
      || not (u.opaque == "")

  unfoldable pub normalize_uri : String → Normalized
  unfolding to_lower
  normalize_uri value =
      let id = named uri value in
      let unusable =
        reject id
          "uri identifier must be an absolute https URI without user information or a fragment" in
      if value == ""
      then invalid (new_problem malformed "uri identifier value is empty")
      else if ltb 2048 (len value)
      then reject id "uri identifier exceeds 2048 characters"
      else if not (all_chars is_printable value)
      then reject id "uri identifier must be ASCII without spaces or control characters"
      else elim (p.parse_uri value) [
        | none ↦ unusable
        | some u ↦
            if unusable_uri u
            then unusable
            else canonical (record {
              kind = uri;
              value = p.format_uri (record u { scheme = "https"; host = to_lower p u.host });
            })
      ]

  -- `Normalize`
  unfoldable pub normalize : Identifier → Normalized
  unfolding normalize_dns normalize_ip normalize_tn_auth_list normalize_nf_instance_id normalize_uri
  normalize id = elim id.kind [
    | dns ↦ normalize_dns id.value
    | ip ↦ normalize_ip id.value
    | tn_auth_list ↦ normalize_tn_auth_list id.value
    | nf_instance_id ↦ normalize_nf_instance_id id.value
    | uri ↦ normalize_uri id.value
    | other t ↦ invalid (
        new_problem unsupported_identifier
          (concat "identifier type " (concat (p.quote t) " is not supported")))
  ]

abbrev pub contains : Identifier → List Identifier → Bool
contains id [] = false
contains id (x ∷ xs) = same_identifier x id || contains id xs

pub data NormalizedAll : Type 0 where
  all_canonical : List Identifier → NormalizedAll
  some_invalid : Problem → NormalizedAll

abbrev pub or_invalid : Normalized → (Identifier → NormalizedAll) → NormalizedAll
or_invalid (canonical id) go = go id
or_invalid (invalid e) go = some_invalid e

module _ (p : Platform) where
  -- The loop of `NormalizeIdentifiers`: `seen` are the identifiers of the set, and of the result.
  unfoldable pub normalize_loop : List Identifier → List Identifier → NormalizedAll
  unfolding normalize
  normalize_loop seen [] = all_canonical seen
  normalize_loop seen (id ∷ ids) = or_invalid (normalize p id) λ n.
      let rest = normalize_loop (seen ++ (n ∷ [])) ids in
      if contains n seen
      then some_invalid (
          with_identifier n (
            new_problem malformed (
              concat "identifier " (
                concat (type_name n.kind)
                  (concat ":" (concat n.value " is listed more than once"))))))
      else rest

  unfoldable pub normalize_identifiers : List Identifier → NormalizedAll
  unfolding normalize_loop
  normalize_identifiers ids = normalize_loop [] ids
