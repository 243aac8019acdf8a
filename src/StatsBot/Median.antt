-- ===== src/StatsBot/Median.antt =====
-- internal/modules/stats_bot/util.go, and the sums of channel_posts.go. A Go int is a signed integer
-- whose sums are reduced to 64 bits.
pub mod Halves
pub mod Order
use tam_backend.Prelude.{
  ltb, ◌==◌, if◌then◌else◌, length, ℤ, pos, wrap_64, div_ℤ, ◌+ℤ◌, leb_ℤ, ℕ, zero, suc, ◌-◌, ◌/◌,
  ◌%◌, ◌&&◌, List, [], ◌∷◌,
}

-- An element in its place of an ascending list.
unfoldable pub insert : ℤ → List ℤ → List ℤ
insert x [] = x ∷ []
insert x (y ∷ ys) = let rest = insert x ys in if leb_ℤ x y then x ∷ y ∷ ys else y ∷ rest

-- `sort.Ints`.
unfoldable pub sort : List ℤ → List ℤ
sort [] = []
sort (x ∷ xs) = insert x (sort xs)

-- `xs[i]`; an index past the end, which is a panic in Go, gives 0.
unfoldable pub nth : List ℤ → ℕ → ℤ
nth [] i = pos 0
nth (x ∷ xs) zero = x
nth (x ∷ xs) (suc i) = nth xs i

-- The middle element of an ascending list, or the mean of the two middle ones.
unfoldable pub middle : List ℤ → ℤ
middle sorted =
    let n : ℕ = length sorted in
    if n % 2 == 0 && ltb 0 (n / 2)
    then div_ℤ (wrap_64 (nth sorted (n / 2 - 1) +ℤ nth sorted (n / 2))) 2
    else nth sorted (n / 2)

-- `CalculateMedian`.
unfoldable pub calculate_median : List ℤ → ℤ
calculate_median [] = pos 0
calculate_median (x ∷ xs) = middle (sort (x ∷ xs))

-- The loop `sum += v`.
unfoldable pub sum_from : ℤ → List ℤ → ℤ
sum_from sum [] = sum
sum_from sum (v ∷ vs) = sum_from (wrap_64 (sum +ℤ v)) vs

-- The mean of a list that is not empty.
unfoldable pub average : List ℤ → ℤ
average [] = pos 0
average (v ∷ vs) = div_ℤ (sum_from (pos 0) (v ∷ vs)) (length (v ∷ vs))
