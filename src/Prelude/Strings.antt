-- ===== src/Prelude/Strings.antt =====
-- Texts as lists of code points (bytes, where the text is ASCII), and the functions of Go's
-- `strings` and `strconv` that the source calls.
use Prim.Native.Nat.{ℕ, zero, suc, ◌+◌, ◌-◌, ◌*◌}
use Prim.Native.Char.{code}
use Prim.Native.String.{String}
use mathlib.Core.Path.{◌≡◌, refl}
use mathlib.Core.Bool.{Bool, true, false, ◌&&◌}
use mathlib.Core.Option.{Option, none, some}
use mathlib.Core.List.{List, [], ◌∷◌}
use native.Mathlib.Omega.{arith}
use tam_backend.Prelude.Tests.{leb, ◌==◌, if◌then◌else◌}
use tam_backend.Prelude.Int.{ℤ, pos, negsuc}

abbrev pub Text : Type 0
Text = List ℕ

abbrev pub codes : String → Text
codes String.[] = []
codes (String.◌∷◌ c s) = code c ∷ codes s

-- `==` on Go strings.
unfoldable pub text_eq : Text → Text → Bool
text_eq [] [] = true
text_eq [] (d ∷ t) = false
text_eq (c ∷ s) [] = false
text_eq (c ∷ s) (d ∷ t) = c == d && text_eq s t

pub text_eq_refl : (s : Text) → text_eq s s ≡ true
unfolding text_eq
text_eq_refl [] = refl
text_eq_refl (c ∷ s) = ground (arith, text_eq_refl s)

pub text_eq_sound : (s t : Text) → text_eq s t ≡ true → s ≡ t
unfolding text_eq
text_eq_sound [] [] h = refl
text_eq_sound [] (d ∷ t) h = cc
text_eq_sound (c ∷ s) [] h = cc
text_eq_sound (c ∷ s) (d ∷ t) h = ground (arith, text_eq_sound s t)

abbrev pub is_empty : Text → Bool
is_empty [] = true
is_empty (c ∷ s) = false

-- `c` in front of the first part.
abbrev push_front : ℕ → List Text → List Text
push_front c [] = (c ∷ []) ∷ []
push_front c (p ∷ ps) = (c ∷ p) ∷ ps

-- `strings.Split(s, sep)` for a separator of one byte: one part more than there are separators.
unfoldable pub split : ℕ → Text → List Text
split sep [] = [] ∷ []
split sep (c ∷ s) = let rest = split sep s in if c == sep then [] ∷ rest else push_front c rest

abbrev pub is_digit : ℕ → Bool
is_digit c = leb b'0' c && leb c b'9'

abbrev pub max_int : ℕ
max_int = 9223372036854775807

-- The digits of an integer, or `none` at another byte.
digits_value : ℕ → Text → Option ℕ
digits_value acc [] = some acc
digits_value acc (c ∷ s) =
    let rest = digits_value (acc * 10 + (c - b'0')) s in if is_digit c then rest else none

-- A magnitude within `limit`; an empty text is a syntax error.
magnitude : ℕ → Text → Option ℕ
unfolding digits_value
magnitude limit [] = none
magnitude limit (c ∷ s) = elim (digits_value 0 (c ∷ s)) [
  | none ↦ none
  | some n ↦ if leb n limit then some n else none
]

abbrev signed : ℕ → ℤ
signed n = elim n [ zero ↦ pos 0 | suc m ↦ negsuc m ]

-- `strconv.Atoi`: an optional sign, one or more digits, within the range of a 64-bit int; `none` is
-- an error.
unfoldable pub atoi : Text → Option ℤ
unfolding magnitude
atoi [] = none
atoi (c ∷ s) =
    if c == b'-'
    then elim (magnitude (max_int + 1) s) [ none ↦ none | some n ↦ some (signed n) ]
    else if c == b'+'
    then elim (magnitude max_int s) [ none ↦ none | some n ↦ some (pos n) ]
    else elim (magnitude max_int (c ∷ s)) [ none ↦ none | some n ↦ some (pos n) ]

-- `strings.TrimPrefix(s, "@")`.
abbrev pub trim_at : Text → Text
trim_at [] = []
trim_at (c ∷ s) = if c == b'@' then s else c ∷ s
