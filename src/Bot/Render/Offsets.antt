-- ===== src/Bot/Render/Offsets.antt =====
-- The rune index of a UTF-16 offset.
use tam_backend.Prelude.{length, ℤ, pos, ◌≤ℤ◌, Text, ℕ, suc, ◌+◌, ◌≤◌, ◌≡◌, [], ◌∷◌, ◌++◌, arith}
use tam_backend.Bot.Render.{units, rune_index, utf16_offset_to_rune_index}

-- The UTF-16 length of a text.
abbrev pub utf16_length : Text → ℕ
utf16_length [] = 0
utf16_length (r ∷ rs) = units r + utf16_length rs

rune_index-lower : (t : ℤ) (c i : ℕ) (s : Text) → i ≤ rune_index t c i s
unfolding rune_index
rune_index-lower t c i [] = omega arith
rune_index-lower t c i (r ∷ rs) = ground (arith, rune_index-lower t (c + units r) (suc i) rs)

pub rune_index-upper : (t : ℤ) (c i : ℕ) (s : Text) → rune_index t c i s ≤ i + length s
unfolding rune_index
rune_index-upper t c i [] = omega arith
rune_index-upper t c i (r ∷ rs) = ground (arith, rune_index-upper t (c + units r) (suc i) rs)

-- A larger offset has no smaller index.
pub rune_index_mono :
    (t t' : ℤ) (c i : ℕ) (s : Text) → t ≤ℤ t' → rune_index t c i s ≤ rune_index t' c i s
unfolding rune_index
rune_index_mono t t' c i [] h = omega arith
rune_index_mono t t' c i (r ∷ rs) h = ground (
  arith,
  rune_index_mono t t' (c + units r) (suc i) rs,
  rune_index-lower t' (c + units r) (suc i) rs,
)

rune_index-exact :
    (a b : Text) (n c i : ℕ)
    → n ≡ c + utf16_length a
    → rune_index (pos n) c i (a ++ b) ≡ i + length a
unfolding rune_index
rune_index-exact [] [] n c i h = omega arith
rune_index-exact [] (r ∷ rs) n c i h = ground (arith, h)
rune_index-exact (r ∷ rs) b n c i h =
    ground (arith, h, rune_index-exact rs b n (c + units r) (suc i))

-- The offset behind a beginning of the text is the index behind it.
pub utf16_offset_to_rune_index-append :
    (a b : Text) → utf16_offset_to_rune_index (a ++ b) (pos (utf16_length a)) ≡ length a
utf16_offset_to_rune_index-append a b =
    omega (arith, rune_index-exact a b (utf16_length a) 0 0 (omega arith))

pub utf16_length-append : (a b : Text) → utf16_length (a ++ b) ≡ utf16_length a + utf16_length b
utf16_length-append [] b = omega arith
utf16_length-append (r ∷ rs) b = omega (arith, utf16_length-append rs b)
