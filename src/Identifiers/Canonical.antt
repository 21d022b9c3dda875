-- ===== src/Identifiers/Canonical.antt =====
-- identifier.go: what `NormalizeIdentifiers` accepts is in canonical form.
use Prim.Native.String.{String, len}
use go_acme_server.Prelude.{
  ℕ, ◌+◌, ◌≡◌, refl, ap, ◌∙◌, true, false, ◌==◌, eq_iff, arith, Option, none, some, ◌=?◌,
  if◌then◌else◌, Bool-cases, Option-cases, inl, inr,
}
use Prim.Native.Nat.{compare}
use Prim.Native.Char.{Char, code, len_utf8, len_utf8_def, width}
use Prim.Native.String.len
use text.Mathlib.TextLemmas.{cons-ne-nil}
use go_acme_server.Platform.{Platform, Addr}
use go_acme_server.Text.{all_chars, is_ascii, lower_char, to_lower}
use go_acme_server.Text.Lower.{is_lowered, to_lower-is_lowered, to_lower_same, all_chars_mono}
use go_acme_server.Problem.{dns, ip, tn_auth_list, nf_instance_id, Identifier}
use go_acme_server.Resource.{Bytes}
use go_acme_server.TnAuthList.{check_tn_auth_list}
use go_acme_server.Identifiers.{
  canonical, named, is_nil_byte, is_hex, is_hyphen, is_hyphen_position, is_uuid_from,
  check_dns_name, normalize_dns, check_addr, normalize_ip, check_decoded, normalize_tn_auth_list,
  normalize_nf_instance_id,
}

-- What the Go library documents: the text of an address is parsed as the same address and the empty
-- text as none, and no character beyond ASCII has a hexadecimal digit or a hyphen as its lower case.
pub record IsDocumented (p : Platform) : Type 0 where
  pub again :
      (value : String) (a : Addr) → p.parse_addr value ≡ some a → p.parse_addr a.text ≡ some a
  pub nothing : p.parse_addr "" ≡ none
  pub lower_other_stays :
      (c : Char)
      → is_ascii (code c) ≡ false
      → (is_hex (code (p.lower_other c)) ≡ false) × (is_hyphen (code (p.lower_other c)) ≡ false)

cons-nonempty : (c : Char) (s : String) → (String.◌∷◌ c s == "") ≡ false
cons-nonempty c s = elim (Bool-cases (String.◌∷◌ c s == "")) [
  | inl e ↦ absurd (cons-ne-nil c s ((eq_iff (String.◌∷◌ c s) "").0 e))
  | inr e ↦ e
]

to_lower-nonempty : (p : Platform) (s : String) → (s == "") ≡ false → (to_lower p s == "") ≡ false
unfolding to_lower
to_lower-nonempty p String.[] h = absurd (ground arith)
to_lower-nonempty p (String.◌∷◌ c s) h = cons-nonempty (lower_char p c) (to_lower p s)

lowered-is_ascii : (s : String) → all_chars is_lowered s ≡ true → all_chars is_ascii s ≡ true
lowered-is_ascii s h = all_chars_mono is_lowered is_ascii (λ n e. ground arith) s h

check_dns_name-canonical :
    (p : Platform) (id id' n : Identifier) (name : String)
    → check_dns_name p id name ≡ canonical n
    → (n ≡ named dns name) × (check_dns_name p id' name ≡ canonical n)
unfolding check_dns_name
check_dns_name-canonical p id id' n name h = (ground arith, ground arith)

normalize_dns_fixed :
    (p : Platform) (lower : String) (n : Identifier)
    → (lower == "") ≡ false
    → all_chars is_ascii lower ≡ true
    → to_lower p lower ≡ lower
    → check_dns_name p (named dns lower) lower ≡ canonical n
    → normalize_dns p lower ≡ canonical n
unfolding normalize_dns
normalize_dns_fixed p lower n given ascii fixed h = ground arith

-- A UUID in lower case.
uuid_char-is_lowered :
    (i n : ℕ)
    → (if is_hyphen_position i then is_hyphen n else is_hex n) ≡ true
    → is_lowered n ≡ true
uuid_char-is_lowered i n h = ground arith

is_uuid-is_lowered : (i : ℕ) (s : String) → is_uuid_from i s ≡ true → all_chars is_lowered s ≡ true
unfolding is_uuid_from
is_uuid-is_lowered i String.[] h = refl
is_uuid-is_lowered i (String.◌∷◌ c s) h =
    let e = uuid_char-is_lowered i (code c) (ground arith) in
    let f = is_uuid-is_lowered (i + 1) s (ground arith) in ground arith

len_utf8-ascii : (c : Char) → is_ascii (code c) ≡ true → len_utf8 c ≡ 1
len_utf8-ascii c h =
    let e : len_utf8 c
        ≡ width (compare (code c) 128) (compare (code c) 2048) (compare (code c) 65536) =
      (λ i. len_utf8_def c i) in
    ground arith

len-cons : (c : Char) (s : String) → len (String.◌∷◌ c s) ≡ len_utf8 c + len s
len-cons c s = λ i. len.cons c s i

-- Only an ASCII character is written as one of a UUID.
lower_char-ascii :
    (p : Platform) (go : IsDocumented p) (i : ℕ) (c : Char)
    → (if is_hyphen_position i
        then is_hyphen (code (lower_char p c))
        else is_hex (code (lower_char p c)))
      ≡ true
    → is_ascii (code c) ≡ true
unfolding lower_char
lower_char-ascii p go i c h = elim (Bool-cases (is_ascii (code c))) [
  | inl a ↦ a
  | inr a ↦ let (e, f) = go.lower_other_stays c a in ground arith
]

len-to_lower :
    (p : Platform) (go : IsDocumented p) (i : ℕ) (s : String)
    → is_uuid_from i (to_lower p s) ≡ true
    → len (to_lower p s) ≡ len s
unfolding is_uuid_from to_lower
len-to_lower p go i String.[] h = refl
len-to_lower p go i (String.◌∷◌ c s) h =
    let a = lower_char-ascii p go i c (ground arith) in
    let b = uuid_char-is_lowered i (code (lower_char p c)) (ground arith) in
    let rest = len-to_lower p go (i + 1) s (ground arith) in
    let u = len_utf8-ascii c a in
    let v = len_utf8-ascii (lower_char p c) (ground arith) in
    let e = len-cons c s in let f = len-cons (lower_char p c) (to_lower p s) in omega arith

pub normalize_dns-canonical :
    (p : Platform) (value : String) (n : Identifier)
    → normalize_dns p value ≡ canonical n
    → (n.kind ≡ dns) × (normalize_dns p n.value ≡ canonical n)
unfolding normalize_dns
normalize_dns-canonical p value n h =
    let lower = to_lower p value in
    let (same, again) =
      check_dns_name-canonical p (named dns value) (named dns lower) n lower (ground arith) in
    let given = to_lower-nonempty p value (ground arith) in
    let lowered = to_lower-is_lowered p value (ground arith) in
    let fixed = to_lower_same p lower lowered in
    let ascii = lowered-is_ascii lower lowered in
    (
      ground arith,
      ap (λ v. normalize_dns p v) (ap (λ x. x.value) same)
          ∙ normalize_dns_fixed p lower n given ascii fixed again,
    )

normalize_nf_fixed :
    (p : Platform) (lower : String) (n : Identifier)
    → (lower == "") ≡ false
    → to_lower p lower ≡ lower
    → (len lower =? 36) ≡ true
    → is_uuid_from 0 lower ≡ true
    → all_chars is_nil_byte lower ≡ false
    → n ≡ named nf_instance_id lower
    → normalize_nf_instance_id p lower ≡ canonical n
unfolding normalize_nf_instance_id
normalize_nf_fixed p lower n given fixed size form some_digit same = ground arith

pub normalize_nf-canonical :
    (p : Platform) (go : IsDocumented p) (value : String) (n : Identifier)
    → normalize_nf_instance_id p value ≡ canonical n
    → (n.kind ≡ nf_instance_id) × (normalize_nf_instance_id p n.value ≡ canonical n)
unfolding normalize_nf_instance_id
normalize_nf-canonical p go value n h =
    let lower = to_lower p value in
    let given = to_lower-nonempty p value (ground arith) in
    let lowered = is_uuid-is_lowered 0 lower (ground arith) in
    let fixed = to_lower_same p lower lowered in
    let size = len-to_lower p go 0 value (ground arith) in
    let same : n ≡ named nf_instance_id lower = ground arith in
    (
      ground arith,
      ap (λ v. normalize_nf_instance_id p v) (ap (λ x. x.value) same)
          ∙ normalize_nf_fixed p lower n given fixed (ground arith) (ground arith) (ground arith)
              same,
    )

normalize_ip_fixed :
    (p : Platform) (a : Addr) (n : Identifier)
    → (a.text == "") ≡ false
    → p.parse_addr a.text ≡ some a
    → check_addr p (named ip a.text) (some a) ≡ canonical n
    → normalize_ip p a.text ≡ canonical n
unfolding normalize_ip
normalize_ip_fixed p a n given again h = ground arith

addr-nonempty :
    (p : Platform) (go : IsDocumented p) (value : String) (a : Addr)
    → p.parse_addr value ≡ some a
    → (a.text == "") ≡ false
addr-nonempty p go value a e = elim (Bool-cases (a.text == "")) [
  | inr given ↦ given
  | inl empty ↦
      let again = go.again value a e in
      let nothing = go.nothing in
      let same = (eq_iff a.text "").0 empty in
      absurd (cc (again, nothing, same, ap p.parse_addr same))
]

pub normalize_ip-canonical :
    (p : Platform) (net : IsDocumented p) (value : String) (n : Identifier)
    → normalize_ip p value ≡ canonical n
    → (n.kind ≡ ip) × (normalize_ip p n.value ≡ canonical n)
unfolding normalize_ip
normalize_ip-canonical p net value n h = elim (Option-cases (p.parse_addr value)) [
  | inl e ↦ absurd (ground arith)
  | inr (a, e) ↦
      let again = net.again value a e in
      let same : n ≡ named ip a.text = ground arith in
      (
        ground arith,
        ap (λ v. normalize_ip p v) (ap (λ x. x.value) same)
            ∙ normalize_ip_fixed p a n (addr-nonempty p net value a e) again (ground arith),
      )
]

check_decoded-canonical :
    (id n : Identifier) (o : Option Bytes) → check_decoded id o ≡ canonical n → n ≡ id
unfolding check_decoded
check_decoded-canonical id n none h = absurd (ground arith)
check_decoded-canonical id n (some der) h = elim (Bool-cases (check_tn_auth_list der)) [
  | inl good ↦ ground arith
  | inr bad ↦ absurd (ground arith)
]

pub normalize_tn-canonical :
    (p : Platform) (value : String) (n : Identifier)
    → normalize_tn_auth_list p value ≡ canonical n
    → (n.kind ≡ tn_auth_list) × (normalize_tn_auth_list p n.value ≡ canonical n)
unfolding normalize_tn_auth_list
normalize_tn-canonical p value n h =
    let same =
      check_decoded-canonical (named tn_auth_list value) n (p.decode_base64 value) (ground arith) in
    (ap (λ x. x.kind) same, ap (λ v. normalize_tn_auth_list p v) (ap (λ x. x.value) same) ∙ h)
