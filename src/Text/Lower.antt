-- ===== src/Text/Lower.antt =====
-- strings.ToLower on ASCII texts.
use Prim.Native.Nat.{compare, Ordering}
use Prim.Native.Char.{Char, code}
use Prim.Native.String.{String, [], ◌∷◌}
use go_acme_server.Prelude.{
  ℕ, ◌+◌, ◌<◌, ◌≡◌, refl, Bool, true, false, not, ◌&&◌, arith, Bool-cases, inl, inr,
}
use go_acme_server.Platform.{Platform}
use go_acme_server.Text.{
  all_chars, is_upper, is_ascii, from_ordering, from_code, lower_char, to_lower,
}

code-from_ordering :
    (n : ℕ) (o : Ordering) (e : compare n 55296 ≡ o) → n < 55296 → code (from_ordering n o e) ≡ n
unfolding from_ordering
code-from_ordering n Ordering.lt e h = refl
code-from_ordering n Ordering.eq e h = absurd (ground arith)
code-from_ordering n Ordering.gt e h = absurd (ground arith)

code-from_code : (n : ℕ) → n < 55296 → code (from_code n) ≡ n
unfolding from_code
code-from_code n h = code-from_ordering n (compare n 55296) refl h

-- The characters that stay as they are.
lower_char_same :
    (p : Platform) (c : Char)
    → is_upper (code c) ≡ false
    → is_ascii (code c) ≡ true
    → lower_char p c ≡ c
unfolding lower_char
lower_char_same p c u a = ground arith

-- A lower-case ASCII character.
abbrev pub is_lowered : ℕ → Bool
is_lowered n = is_ascii n && not (is_upper n)

lower_char-is_lowered :
    (p : Platform) (c : Char) → is_ascii (code c) ≡ true → is_lowered (code (lower_char p c)) ≡ true
unfolding lower_char
lower_char-is_lowered p c a = elim (Bool-cases (is_upper (code c))) [
  | inl u ↦ let e = code-from_code (code c + 32) (ground arith) in ground arith
  | inr u ↦ ground arith
]

pub to_lower-is_lowered :
    (p : Platform) (s : String)
    → all_chars is_ascii s ≡ true
    → all_chars is_lowered (to_lower p s) ≡ true
unfolding to_lower
to_lower-is_lowered p [] a = refl
to_lower-is_lowered p (c ∷ s) a =
    let e = lower_char-is_lowered p c (ground arith) in
    let f = to_lower-is_lowered p s (ground arith) in ground arith

pub to_lower_same : (p : Platform) (s : String) → all_chars is_lowered s ≡ true → to_lower p s ≡ s
unfolding to_lower
to_lower_same p [] a = refl
to_lower_same p (c ∷ s) a =
    let e = lower_char_same p c (ground arith) (ground arith) in
    let f = to_lower_same p s (ground arith) in cc

pub all_chars_mono :
    (q r : ℕ → Bool) (sub : (n : ℕ) → q n ≡ true → r n ≡ true) (s : String)
    → all_chars q s ≡ true
    → all_chars r s ≡ true
all_chars_mono q r sub [] a = refl
all_chars_mono q r sub (c ∷ s) a =
    let e = sub (code c) (ground arith) in
    let f = all_chars_mono q r sub s (ground arith) in ground arith
