-- ===== src/TnAuthList.antt =====
-- tnauthlist.go: the checks of a TN Authorization List. A check answers whether the source returns
-- no error.
pub mod Fields
use go_acme_server.Prelude.{
  ℕ, zero, suc, ◌+◌, ◌-◌, ◌*◌, ◌^◌, Bool, true, false, not, ◌&&◌, ◌||◌, none, some, [], ◌∷◌, ltb,
  leb, ◌=?◌, length, if◌then◌else◌,
}
use go_acme_server.Resource.{Bytes}
use go_acme_server.Der.{tlv, expect, der_integer}

abbrev pub max_list_bytes : ℕ
max_list_bytes = 8 * 1024

abbrev pub max_entries : ℕ
max_entries = 512

abbrev pub all_bytes : (ℕ → Bool) → Bytes → Bool
all_bytes p [] = true
all_bytes p (b ∷ bs) = p b && all_bytes p bs

abbrev pub is_digit : ℕ → Bool
is_digit b = leb 48 b && leb b 57

-- `telephoneNumberAlphabet`: the digits, `#` and `*`.
abbrev pub is_telephone_byte : ℕ → Bool
is_telephone_byte b = is_digit b || b =? 35 || b =? 42

-- 64 printable characters at most.
unfoldable pub check_service_provider_code : Bytes → Bool
check_service_provider_code value =
    not (length value =? 0) && leb (length value) 64 && all_bytes (λ b. leb 33 b && leb b 126) value

-- 15 characters at most.
unfoldable pub check_telephone_number : Bytes → Bool
check_telephone_number value =
    not (length value =? 0) && leb (length value) 15 && all_bytes is_telephone_byte value

-- `strconv.ParseInt` on digits, with the value of those before.
abbrev pub parse_digits : ℕ → Bytes → ℕ
parse_digits value [] = value
parse_digits value (b ∷ bs) = parse_digits (value * 10 + (b - 48)) bs

-- `for len(fields.buf) != 0 { fields.tlv() }`, with as many rounds as there are bytes.
unfoldable pub skip_fields : ℕ → Bytes → Bool
unfolding tlv
skip_fields rounds [] = true
skip_fields zero (b ∷ bs) = false
skip_fields (suc rounds) (b ∷ bs) = elim (tlv (b ∷ bs)) [
  | none ↦ false
  | some t ↦ skip_fields rounds t.rest
]

-- The rule that the count does not extend the length of the number.
abbrev pub fits_length : Bytes → ℕ → Bool
fits_length start count =
    let limit = 10 ^ length start in
    let first = parse_digits 0 start in
    all_bytes is_digit start && ltb count limit && ltb (first + count) limit

unfoldable pub check_telephone_number_range : Bytes → Bool
unfolding expect check_telephone_number der_integer skip_fields
check_telephone_number_range body = elim (expect 22 body) [
  | none ↦ false
  | some (start, after) ↦ check_telephone_number start && elim (expect 2 after) [
    | none ↦ false
    | some (raw, fields) ↦ elim (der_integer raw) [
      | none ↦ false
      | some count ↦ leb 2 count && skip_fields (length fields) fields && fits_length start count
    ]
  ]
]

-- The contents of an explicit tag: one value with the inner tag and nothing behind it.
abbrev pub wraps : ℕ → (Bytes → Bool) → Bytes → Bool
wraps inner check content = elim (expect inner content) [
  | none ↦ false
  | some (value, []) ↦ check value
  | some (value, b ∷ bs) ↦ false
]

unfoldable pub check_tn_entry : ℕ → Bytes → Bool
unfolding expect check_service_provider_code check_telephone_number_range check_telephone_number
check_tn_entry tag content =
    if tag =? 160
    then wraps 22 check_service_provider_code content
    else if tag =? 161
    then wraps 48 check_telephone_number_range content
    else if tag =? 162
    then wraps 22 check_telephone_number content
    else false

-- The loop over the entries, with the number that may still come.
unfoldable pub check_entries : ℕ → Bytes → Bool
unfolding tlv check_tn_entry
check_entries left [] = true
check_entries zero (b ∷ bs) = false
check_entries (suc left) (b ∷ bs) = elim (tlv (b ∷ bs)) [
  | none ↦ false
  | some t ↦ check_tn_entry t.tag t.content && check_entries left t.rest
]

unfoldable pub check_tn_auth_list : Bytes → Bool
unfolding expect check_entries
check_tn_auth_list der =
    not (length der =? 0) && leb (length der) max_list_bytes && elim (expect 48 der) [
      | none ↦ false
      | some (body, []) ↦ not (length body =? 0) && check_entries max_entries body
      | some (body, b ∷ bs) ↦ false
    ]
