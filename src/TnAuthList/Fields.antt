-- ===== src/TnAuthList/Fields.antt =====
-- tnauthlist.go: the loop over the further fields of a telephone number range.
use go_acme_server.Prelude.{
  ℕ, zero, suc, ◌%◌, ◌≡◌, ◌≤◌, ◌<◌, ◌↔◌, arith, true, ◌||◌, some, [], ◌∷◌, ltb, leb, ◌=?◌, length,
  drop, Bool-cases, Option-cases, inl, inr,
}
use go_acme_server.Resource.{Bytes}
use go_acme_server.Der.{Tlv, tlv, cut, long_form, take_bytes, big_endian, starts_with_zero}
use go_acme_server.TnAuthList.{skip_fields}

-- A buffer that the cursor reads to its end, value after value.
pub data IsFields : Bytes → Type 0 where
  ended : IsFields []
  field : {buf : Bytes} {t : Tlv} → tlv buf ≡ some t → IsFields t.rest → IsFields buf

length-drop : (n : ℕ) (xs : Bytes) → length (drop n xs) ≤ length xs
length-drop zero xs = omega arith
length-drop (suc n) [] = omega arith
length-drop (suc n) (x ∷ xs) = let e = length-drop n xs in omega arith

cut-rest :
    (tag size : ℕ) (buf : Bytes) (t : Tlv) → cut tag size buf ≡ some t → length t.rest ≤ length buf
cut-rest tag size buf t h =
    let e = length-drop size buf in
    elim (Bool-cases (ltb (length buf) size)) [
      | inl short ↦ absurd (ground arith)
      | inr fits ↦ let same : drop size buf ≡ t.rest = ground arith in ground arith
    ]

long_form-rest :
    (tag octets : ℕ) (buf : Bytes) (t : Tlv)
    → long_form tag octets buf ≡ some t
    → length t.rest ≤ length buf
long_form-rest tag octets buf t h =
    let e = length-drop octets buf in
    elim (Bool-cases
      (octets =? 0 || ltb 4 octets || ltb (length buf) octets || starts_with_zero buf)) [
        | inl bad ↦ absurd (ground arith)
        | inr good ↦ elim (Bool-cases (ltb (big_endian 0 (take_bytes octets buf)) 128)) [
          | inl bad ↦ absurd (ground arith)
          | inr long ↦
              let size = big_endian 0 (take_bytes octets buf) in
              let r = cut-rest tag size (drop octets buf) t (ground arith) in omega arith
        ]
      ]

-- The cursor moves on with every value that it reads.
tlv-rest : (buf : Bytes) (t : Tlv) → tlv buf ≡ some t → length t.rest < length buf
unfolding tlv
tlv-rest [] t h = absurd (ground arith)
tlv-rest (tag ∷ []) t h = absurd (ground arith)
tlv-rest (tag ∷ size ∷ buf) t h = elim (Bool-cases (tag % 32 =? 31)) [
  | inl e ↦ absurd (ground arith)
  | inr e ↦ elim (Bool-cases (leb 128 size)) [
    | inl k ↦ let r = long_form-rest tag (size % 128) buf t (ground arith) in omega arith
    | inr k ↦ let r = cut-rest tag size buf t (ground arith) in omega arith
  ]
]

skip_fields-IsFields : (rounds : ℕ) (buf : Bytes) → skip_fields rounds buf ≡ true → IsFields buf
unfolding skip_fields
skip_fields-IsFields rounds [] h = ended
skip_fields-IsFields zero (b ∷ buf) h = absurd (ground arith)
skip_fields-IsFields (suc rounds) (b ∷ buf) h = elim (Option-cases (tlv (b ∷ buf))) [
  | inl e ↦ absurd (ground arith)
  | inr (t, e) ↦ field e (skip_fields-IsFields rounds t.rest (ground arith))
]

IsFields-skip_fields :
    (rounds : ℕ) (buf : Bytes) → length buf ≤ rounds → IsFields buf → skip_fields rounds buf ≡ true
unfolding skip_fields tlv
IsFields-skip_fields rounds [] h f = ground arith
IsFields-skip_fields zero (b ∷ buf) h f = absurd (omega arith)
IsFields-skip_fields (suc rounds) (b ∷ buf) h (field {t} e f) =
    let shorter = tlv-rest (b ∷ buf) t e in
    let rest = IsFields-skip_fields rounds t.rest (omega arith) f in ground arith

-- With as many rounds as there are bytes, or more, the loop over the further fields of a telephone
-- number range passes exactly when the cursor reads them to the end, value after value. So the
-- rounds never run out.
pub skip_fields_iff :
    (rounds : ℕ) (buf : Bytes) (enough : length buf ≤ rounds)
    → (skip_fields rounds buf ≡ true) ↔ IsFields buf
skip_fields_iff rounds buf enough =
    (skip_fields-IsFields rounds buf, IsFields-skip_fields rounds buf enough)
