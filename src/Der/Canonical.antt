-- ===== src/Der/Canonical.antt =====
-- tnauthlist.go: every value that the cursor reads has one encoding.
use go_acme_server.Prelude.{
  ℕ, zero, suc, ◌+◌, ◌*◌, ◌/◌, ◌%◌, ◌≤◌, ◌<◌, ◌≡◌, refl, sym, ap, ◌∙◌, false, ◌||◌, some, [], ◌∷◌,
  ◌++◌, arith, ltb, leb, ◌=?◌, length, drop, if◌then◌else◌, Bool-cases, inl, inr,
}
use mathlib.Core.List.{append_assoc}
use go_acme_server.Resource.{Bytes}
use go_acme_server.Der.{Tlv, take_bytes, big_endian, cut, starts_with_zero, long_form, tlv}

abbrev pub AreBytes : Bytes → Type 0
AreBytes [] = Unit
AreBytes (b ∷ bs) = (b < 256) × AreBytes bs

-- The shortest form of a length below 2^32.
abbrev pub encode_length : ℕ → Bytes
encode_length n =
    if ltb n 128
    then n ∷ []
    else if ltb n 256
    then 129 ∷ n ∷ []
    else if ltb n 65536
    then 130 ∷ n / 256 ∷ n % 256 ∷ []
    else if ltb n 16777216
    then 131 ∷ n / 65536 ∷ (n / 256) % 256 ∷ n % 256 ∷ []
    else 132 ∷ n / 16777216 ∷ (n / 65536) % 256 ∷ (n / 256) % 256 ∷ n % 256 ∷ []

abbrev pub encode : ℕ → Bytes → Bytes
encode tag content = tag ∷ encode_length (length content) ++ content

take-drop : (n : ℕ) (xs : Bytes) → take_bytes n xs ++ drop n xs ≡ xs
take-drop zero xs = refl
take-drop (suc n) [] = refl
take-drop (suc n) (x ∷ xs) = ap (λ l. x ∷ l) (take-drop n xs)

length-take_bytes : (n : ℕ) (xs : Bytes) → n ≤ length xs → length (take_bytes n xs) ≡ n
length-take_bytes zero xs h = refl
length-take_bytes (suc n) [] h = omega arith
length-take_bytes (suc n) (x ∷ xs) h = let e = length-take_bytes n xs (omega arith) in omega arith

cut-some :
    (tag size : ℕ) (rest : Bytes) (t : Tlv)
    → cut tag size rest ≡ some t
    → (t.tag ≡ tag) × (length t.content ≡ size) × (t.content ++ t.rest ≡ rest)
cut-some tag size rest t h = elim (Bool-cases (ltb (length rest) size)) [
  | inl short ↦ absurd (ground arith)
  | inr fits ↦
      let e = length-take_bytes size rest (ground arith) in
      let f = take-drop size rest in (ground arith, ground arith, ground arith)
]

two : (x y v : ℕ) → v ≡ x * 256 + y → 0 < x → x < 256 → y < 256 → encode_length v ≡ 130 ∷ x ∷ y ∷ []
two x y v same n p q =
    let d : v / 256 ≡ x = omega arith in
    let m : v % 256 ≡ y = omega arith in
    let a : 255 < v = omega arith in let b : v < 65536 = omega arith in ground arith

three :
    (x y z v : ℕ)
    → v ≡ (x * 256 + y) * 256 + z
    → 0 < x
    → x < 256
    → y < 256
    → z < 256
    → encode_length v ≡ 131 ∷ x ∷ y ∷ z ∷ []
three x y z v same n p q r =
    let d : v / 65536 ≡ x = omega arith in
    let e : (v / 256) % 256 ≡ y = omega arith in
    let m : v % 256 ≡ z = omega arith in
    let a : 65535 < v = omega arith in let b : v < 16777216 = omega arith in ground arith

four :
    (x y z w v : ℕ)
    → v ≡ ((x * 256 + y) * 256 + z) * 256 + w
    → 0 < x
    → x < 256
    → y < 256
    → z < 256
    → w < 256
    → encode_length v ≡ 132 ∷ x ∷ y ∷ z ∷ w ∷ []
four x y z w v same n p q r o =
    let d : v / 16777216 ≡ x = omega arith in
    let e : (v / 65536) % 256 ≡ y = omega arith in
    let f : (v / 256) % 256 ≡ z = omega arith in
    let m : v % 256 ≡ w = omega arith in let a : 16777215 < v = omega arith in ground arith

-- The long form that is accepted is the shortest one.
long_form-shortest :
    (octets : ℕ) (rest : Bytes)
    → AreBytes rest
    → (octets =? 0 || ltb 4 octets || ltb (length rest) octets || starts_with_zero rest) ≡ false
    → ltb (big_endian 0 (take_bytes octets rest)) 128 ≡ false
    → encode_length (big_endian 0 (take_bytes octets rest))
      ≡ (128 + octets) ∷ take_bytes octets rest
long_form-shortest zero rest b h m = absurd (ground arith)
long_form-shortest (suc zero) (x ∷ xs) (p, b) h m = ground arith
long_form-shortest (suc (suc zero)) (x ∷ y ∷ xs) (p, (q, b)) h m =
    two x y (big_endian 0 (x ∷ y ∷ [])) (omega arith) (ground arith) p q
long_form-shortest (suc (suc (suc zero))) (x ∷ y ∷ z ∷ xs) (p, (q, (r, b))) h m =
    three x y z (big_endian 0 (x ∷ y ∷ z ∷ [])) (omega arith) (ground arith) p q r
long_form-shortest (suc (suc (suc (suc zero)))) (x ∷ y ∷ z ∷ w ∷ xs) (p, (q, (r, (o, b)))) h m =
    four x y z w (big_endian 0 (x ∷ y ∷ z ∷ w ∷ [])) (omega arith) (ground arith) p q r o
long_form-shortest (suc (suc (suc (suc (suc n))))) rest b h m = absurd (ground arith)
long_form-shortest (suc n) [] b h m = absurd (ground arith)
long_form-shortest (suc (suc n)) (x ∷ []) b h m = absurd (ground arith)
long_form-shortest (suc (suc (suc n))) (x ∷ y ∷ []) b h m = absurd (ground arith)
long_form-shortest (suc (suc (suc (suc n)))) (x ∷ y ∷ z ∷ []) b h m = absurd (ground arith)

encode_short :
    (size : ℕ) (rest body : Bytes)
    → size < 128
    → body ≡ rest
    → encode_length size ++ body ≡ size ∷ rest
encode_short size rest body h e = ground arith

encode-front :
    (tag t : ℕ) (buf content rest : Bytes)
    → tag ≡ t
    → encode_length (length content) ++ (content ++ rest) ≡ buf
    → t ∷ buf ≡ encode tag content ++ rest
encode-front tag t buf content rest same h =
    ap (λ x. x ∷ buf) (sym same)
    ∙ ap (λ l. tag ∷ l) (sym h ∙ sym (append_assoc (encode_length (length content)) content rest))

long_form-encode :
    (tag size : ℕ) (rest : Bytes) (t : Tlv)
    → size < 256
    → AreBytes rest
    → 128 ≤ size
    → long_form tag (size % 128) rest ≡ some t
    → tag ∷ size ∷ rest ≡ encode t.tag t.content ++ t.rest
long_form-encode tag size rest t q b long h =
    let k = size % 128 in
    let whole : 128 + k ≡ size = omega arith in
    let n = big_endian 0 (take_bytes k rest) in
    elim (Bool-cases (k =? 0 || ltb 4 k || ltb (length rest) k || starts_with_zero rest)) [
      | inl bad ↦ absurd (ground arith)
      | inr good ↦ elim (Bool-cases (ltb n 128)) [
        | inl small ↦ absurd (ground arith)
        | inr large ↦
            let (same, m, after) = cut-some tag n (drop k rest) t (ground arith) in
            let e = long_form-shortest k rest b good large in
            encode-front t.tag tag (size ∷ rest) t.content t.rest same
              (rw (m, e, after, take-drop k rest, whole))
      ]
    ]

-- A value that was read has the shortest encoding, which is what stood at the front of the buffer:
-- no other bytes are read as the same tag and contents.
pub tlv-encode :
    (buf : Bytes) (t : Tlv) (bytes : AreBytes buf) (read : tlv buf ≡ some t)
    → buf ≡ encode t.tag t.content ++ t.rest
unfolding tlv
tlv-encode [] t bytes read = absurd (ground arith)
tlv-encode (tag ∷ []) t bytes read = absurd (ground arith)
tlv-encode (tag ∷ size ∷ rest) t (p, (q, b)) read = elim (Bool-cases (tag % 32 =? 31)) [
  | inl high ↦ absurd (ground arith)
  | inr low ↦ elim (Bool-cases (leb 128 size)) [
    | inr short ↦
        let (same, n, whole) = cut-some tag size rest t (ground arith) in
        encode-front t.tag tag (size ∷ rest) t.content t.rest same (
          ap (λ k. encode_length k ++ (t.content ++ t.rest)) n
          ∙ encode_short size rest (t.content ++ t.rest) (ground arith) whole)
    | inl long ↦ long_form-encode tag size rest t q b (ground arith) (ground arith)
  ]
]
