-- ===== src/Der.antt =====
-- tnauthlist.go: the cursor over a DER encoding. A byte is a number below 256; the bit tests of the
-- source on a byte are written as divisions: `b&0x80 != 0` is `128 ≤ b`, `b&0x7f` is `b % 128` and
-- `b&0x1f` is `b % 32`. The cursor moves on by returning what is left.
pub mod Canonical
use go_acme_server.Prelude.{
  ℕ, zero, suc, ◌+◌, ◌*◌, ◌%◌, Bool, true, false, not, ◌&&◌, ◌||◌, Option, none, some, List, [],
  ◌∷◌, ltb, leb, ◌=?◌, length, drop, if◌then◌else◌,
}
use go_acme_server.Resource.{Bytes}

pub record Tlv : Type 0 where
  pub tag : ℕ
  pub content : Bytes
  pub rest : Bytes

abbrev pub take_bytes : ℕ → Bytes → Bytes
take_bytes zero xs = []
take_bytes (suc n) [] = []
take_bytes (suc n) (x ∷ xs) = x ∷ take_bytes n xs

-- `for _, b := range bytes { value = value<<8 | int64(b) }`
abbrev pub big_endian : ℕ → Bytes → ℕ
big_endian value [] = value
big_endian value (b ∷ bs) = big_endian (value * 256 + b) bs

-- The contents, once the length is known.
abbrev pub cut : ℕ → ℕ → Bytes → Option Tlv
cut tag size rest =
    if ltb (length rest) size
    then none
    else some (record { tag = tag; content = take_bytes size rest; rest = drop size rest })

abbrev pub starts_with_zero : Bytes → Bool
starts_with_zero [] = false
starts_with_zero (b ∷ bs) = b =? 0

-- The long form of a length.
abbrev pub long_form : ℕ → ℕ → Bytes → Option Tlv
long_form tag octets rest =
    let size = big_endian 0 (take_bytes octets rest) in
    if octets =? 0 || ltb 4 octets || ltb (length rest) octets || starts_with_zero rest
    then none
    else if ltb size 128
    then none
    else cut tag size (drop octets rest)

-- `tlv`: one tag, length and value, without the forms that DER does not allow.
unfoldable pub tlv : Bytes → Option Tlv
tlv [] = none
tlv (tag ∷ []) = none
tlv (tag ∷ size ∷ rest) =
    if tag % 32 =? 31
    then none
    else if leb 128 size
    then long_form tag (size % 128) rest
    else cut tag size rest

-- `expect`: the contents of a value with the given tag, and what is left.
unfoldable pub expect : ℕ → Bytes → Option (Bytes × Bytes)
unfolding tlv
expect tag buf = elim (tlv buf) [
  | none ↦ none
  | some t ↦ if t.tag =? tag then some (t.content, t.rest) else none
]

-- A leading zero that the sign does not need.
abbrev pub is_padded : ℕ → Bytes → Bool
is_padded b [] = false
is_padded b (c ∷ cs) = b =? 0 && not (leb 128 c)

-- `derInteger`: a canonical INTEGER that is not negative and fits in an int64.
unfoldable pub der_integer : Bytes → Option ℕ
der_integer [] = none
der_integer (b ∷ bs) =
    if ltb 8 (length (b ∷ bs)) || leb 128 b || is_padded b bs
    then none
    else some (big_endian 0 (b ∷ bs))
