-- ===== src/Text.antt =====
-- The text functions of the Go library that the program uses: strings.ToLower, TrimPrefix and
-- SplitSeq, and its own loops over the bytes of a text. A test that only ASCII characters pass
-- holds for all bytes of a text exactly when it holds for all its characters.
pub mod Lower
use Prim.Native.Nat.{compare, Ordering}
use Prim.Native.Char.{Char, char, code, nul}
use Prim.Native.String
use Prim.Native.String.{String, [], ◌∷◌, len, slice}
use text.Mathlib.Text.{starts_with}
use go_acme_server.Prelude.{
  ℕ, ◌+◌, ◌-◌, ◌≤◌, ◌<◌, ◌≡◌, refl, Bool, true, false, not, ◌&&◌, ◌||◌, arith, ltb, leb, ◌=?◌,
  if◌then◌else◌,
}
use mathlib.Core.List
use mathlib.Core.Option.{Option, none, some}
use mathlib.Core.List.{List}
use go_acme_server.Platform.{Platform}

abbrev pub all_chars : (ℕ → Bool) → String → Bool
all_chars p [] = true
all_chars p (c ∷ s) = p (code c) && all_chars p s

abbrev pub any_char : (ℕ → Bool) → String → Bool
any_char p [] = false
any_char p (c ∷ s) = p (code c) || any_char p s

-- `strings.TrimPrefix`
unfoldable pub trim_prefix : String → String → String
trim_prefix value prefix =
    if starts_with value prefix then slice value (len prefix) (len value) else value

from_ordering : (n : ℕ) (o : Ordering) → compare n 55296 ≡ o → Char
from_ordering n Ordering.lt e = char n (rw e tt)
from_ordering n _ e = nul

-- The character with the given number, below the surrogates.
pub from_code : ℕ → Char
unfolding from_ordering
from_code n = from_ordering n (compare n 55296) refl

abbrev pub is_upper : ℕ → Bool
is_upper n = leb 65 n && leb n 90

abbrev pub is_ascii : ℕ → Bool
is_ascii n = ltb n 128

unfoldable pub lower_char : Platform → Char → Char
unfolding from_code
lower_char p c =
    if is_upper (code c)
    then from_code (code c + 32)
    else if is_ascii (code c)
    then c
    else p.lower_other c

-- `strings.ToLower`
unfoldable pub to_lower : Platform → String → String
unfolding lower_char
to_lower p [] = []
to_lower p (c ∷ s) = lower_char p c ∷ to_lower p s

abbrev pub onto_first : Char → List String → List String
onto_first c List.[] = List.◌∷◌ (c ∷ []) List.[]
onto_first c (List.◌∷◌ part parts) = List.◌∷◌ (c ∷ part) parts

-- `strings.SplitSeq` with a separator of one ASCII character.
unfoldable pub split : ℕ → String → List String
split sep [] = List.◌∷◌ [] List.[]
split sep (c ∷ s) =
    let rest = split sep s in if code c =? sep then List.◌∷◌ [] rest else onto_first c rest

abbrev pub onto_before : Char → Option (String × String) → Option (String × String)
onto_before c none = none
onto_before c (some (before, after)) = some (c ∷ before, after)

-- `strings.Cut` with a separator of one ASCII character: none where it does not occur.
unfoldable pub cut : ℕ → String → Option (String × String)
cut sep [] = none
cut sep (c ∷ s) = let rest = cut sep s in if code c =? sep then some ([], s) else onto_before c rest
