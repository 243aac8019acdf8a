-- ===== src/StatsBot/Median/Order.antt =====
-- `CalculateMedian` of internal/modules/stats_bot/util.go and the order of the posts.
use mathlib.Core.List.{Permᴰ}
use tam_backend.Prelude.{ℤ, ◌≡◌, refl, sym, ap, ◌∙◌, List, [], ◌∷◌, arith}
use tam_backend.StatsBot.Median.{insert, sort, middle, calculate_median, nth}

insert_comm : (x y : ℤ) (zs : List ℤ) → insert x (insert y zs) ≡ insert y (insert x zs)
unfolding insert
insert_comm x y [] = ground arith
insert_comm x y (z ∷ zs) = ground (arith, insert_comm x y zs)

sort-Permᴰ : {xs ys : List ℤ} → Permᴰ xs ys → sort xs ≡ sort ys
unfolding sort
sort-Permᴰ Permᴰ.nil = refl
sort-Permᴰ (Permᴰ.cons e p) = λ i. insert (e i) (sort-Permᴰ p i)
sort-Permᴰ (Permᴰ.swap {a} {b} {l} e f) =
    insert_comm a b (sort l) ∙ (λ i. insert (f i) (insert (e i) (sort l)))
sort-Permᴰ (Permᴰ.trans p q) = sort-Permᴰ p ∙ sort-Permᴰ q

middle-sort : (xs : List ℤ) → calculate_median xs ≡ middle (sort xs)
unfolding calculate_median middle sort nth
middle-sort [] = refl
middle-sort (x ∷ xs) = refl

-- `CalculateMedian` gives the same result for every order of the values.
calculate_median-perm : (xs ys : List ℤ) → Permᴰ xs ys → calculate_median xs ≡ calculate_median ys
calculate_median-perm xs ys p = middle-sort xs ∙ ap middle (sort-Permᴰ p) ∙ sym (middle-sort ys)
