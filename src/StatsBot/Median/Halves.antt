-- ===== src/StatsBot/Median/Halves.antt =====
-- What `CalculateMedian` returns, whatever the order of its argument.
use tam_backend.Prelude.{
  ltb, ◌==◌, if◌then◌else◌, Bool-cases, length, All, ℤ, pos_part, neg_part, wrap_64, div_ℤ, ◌+ℤ◌,
  ◌≤ℤ◌, leb_ℤ, ℕ, zero, suc, ◌+◌, ◌-◌, ◌*◌, ◌/◌, ◌%◌, ◌≤◌, ◌<◌, ◌≡◌, refl, subst, inl, inr, Bool,
  true, false, List, [], ◌∷◌, arith,
}
use tam_backend.StatsBot.Median.{insert, sort, nth, middle, calculate_median}

-- How many elements pass a test.
unfoldable pub count_if : (ℤ → Bool) → List ℤ → ℕ
count_if p [] = 0
count_if p (x ∷ xs) = (if p x then 1 else 0) + count_if p xs

-- Every element is at most the later ones.
abbrev Ascending : List ℤ → Type 0
Ascending [] = Unit
Ascending (x ∷ xs) = All (λ y. x ≤ℤ y) xs × Ascending xs

All-insert : (P : ℤ → Type 0) (x : ℤ) (ys : List ℤ) → P x → All P ys → All P (insert x ys)
unfolding insert
All-insert P x [] px ps = (px, ps)
All-insert P x (y ∷ ys) px ps = elim (Bool-cases (leb_ℤ x y)) [
  | inl e ↦ rw e (px, ps)
  | inr e ↦ rw e (ps.0, All-insert P x ys px ps.1)
]

All-le : (x y : ℤ) (zs : List ℤ) → x ≤ℤ y → All (λ z. y ≤ℤ z) zs → All (λ z. x ≤ℤ z) zs
All-le x y [] h a = a
All-le x y (z ∷ zs) h a = (omega (arith, a.0), All-le x y zs h a.1)

insert-Ascending : (x : ℤ) (ys : List ℤ) → Ascending ys → Ascending (insert x ys)
unfolding insert
insert-Ascending x [] h = ground arith
insert-Ascending x (y ∷ ys) h = elim (Bool-cases (leb_ℤ x y)) [
  | inl e ↦ rw e (let le : x ≤ℤ y = ground arith in ((le, All-le x y ys le h.0), h))
  | inr e ↦ rw e (
      let le : y ≤ℤ x = ground arith in
      (All-insert (λ z. y ≤ℤ z) x ys le h.0, insert-Ascending x ys h.1))
]

sort-Ascending : (xs : List ℤ) → Ascending (sort xs)
unfolding sort
sort-Ascending [] = ground arith
sort-Ascending (x ∷ xs) = insert-Ascending x (sort xs) (sort-Ascending xs)

module _ (p : ℤ → Bool) where
  count_if-insert : (x : ℤ) (ys : List ℤ) → count_if p (insert x ys) ≡ count_if p (x ∷ ys)
  unfolding count_if insert
  count_if-insert x [] = refl
  count_if-insert x (y ∷ ys) = ground (arith, count_if-insert x ys)

  count_if-sort : (xs : List ℤ) → count_if p (sort xs) ≡ count_if p xs
  unfolding count_if sort
  count_if-sort [] = refl
  count_if-sort (x ∷ xs) = ground (arith, count_if-insert x (sort xs), count_if-sort xs)

All-nth : (P : ℤ → Type 0) (xs : List ℤ) (i : ℕ) → All P xs → i < length xs → P (nth xs i)
unfolding nth
All-nth P [] i a l = elim l [ ]
All-nth P (x ∷ xs) zero a l = a.0
All-nth P (x ∷ xs) (suc i) a l = All-nth P xs i a.1 (omega arith)

length-insert : (x : ℤ) (ys : List ℤ) → length (insert x ys) ≡ suc (length ys)
unfolding insert
length-insert x [] = refl
length-insert x (y ∷ ys) = ground (arith, length-insert x ys)

pub length-sort : (xs : List ℤ) → length (sort xs) ≡ length xs
unfolding sort
length-sort [] = refl
length-sort (x ∷ xs) = ground (arith, length-insert x (sort xs), length-sort xs)

module _ (m : ℤ) where
  abbrev at_most : ℤ → Bool
  at_most = λ x. leb_ℤ x m

  abbrev at_least : ℤ → Bool
  at_least = λ x. leb_ℤ m x

  count_above-All :
      (x : ℤ) (ys : List ℤ) → m ≤ℤ x → All (λ y. x ≤ℤ y) ys → count_if at_least ys ≡ length ys
  unfolding count_if
  count_above-All x [] h a = refl
  count_above-All x (y ∷ ys) h a = ground (arith, a.0, count_above-All x ys h a.1)

  count_below :
      (xs : List ℤ) (i : ℕ) → Ascending xs → i < length xs → nth xs i ≤ℤ m → i < count_if at_most xs
  unfolding count_if nth
  count_below [] i a l h = omega arith
  count_below (x ∷ xs) zero a l h = ground arith
  count_below (x ∷ xs) (suc i) a l h =
      ground (arith, count_below xs i a.1, All-nth (λ y. x ≤ℤ y) xs i a.0)

  count_above :
      (xs : List ℤ) (i : ℕ)
      → Ascending xs
      → i < length xs
      → m ≤ℤ nth xs i
      → length xs ≤ i + count_if at_least xs
  unfolding count_if nth
  count_above [] i a l h = omega arith
  count_above (x ∷ xs) zero a l h = ground (arith, count_above-All x xs h a.0)
  count_above (x ∷ xs) (suc i) a l h = ground (arith, count_above xs i a.1)

-- A number of 63 bits: the sum of two of them is a 64-bit integer.
abbrev pub Small : ℤ → Type 0
Small x = (pos_part x < 4611686018427387904) × (neg_part x < 4611686018427387904)

mean_between :
    (a b : ℤ)
    → Small a
    → Small b
    → a ≤ℤ b
    → (a ≤ℤ div_ℤ (wrap_64 (a +ℤ b)) 2) × (div_ℤ (wrap_64 (a +ℤ b)) 2 ≤ℤ b)
unfolding ◌+ℤ◌
mean_between a b sa sb h = ground arith

All-sort : (P : ℤ → Type 0) (xs : List ℤ) → All P xs → All P (sort xs)
unfolding sort
All-sort P [] h = h
All-sort P (x ∷ xs) h = All-insert P x (sort xs) h.0 (All-sort P xs h.1)

nth_step : (xs : List ℤ) (i : ℕ) → Ascending xs → suc i < length xs → nth xs i ≤ℤ nth xs (suc i)
unfolding nth
nth_step [] i a l = elim l [ ]
nth_step (x ∷ xs) zero a l = All-nth (λ y. x ≤ℤ y) xs 0 a.0 (omega (arith, l))
nth_step (x ∷ xs) (suc i) a l = nth_step xs i a.1 (omega (arith, l))

-- At least half of the elements are at most `m`, and at least half are at least `m`.
abbrev pub Halves : ℤ → List ℤ → Type 0
Halves m xs =
    (length xs ≤ 2 * count_if (λ x. leb_ℤ x m) xs) × (length xs ≤ 2 * count_if (λ x. leb_ℤ m x) xs)

middle_even :
    (s : List ℤ) (k : ℕ)
    → Ascending s
    → All Small s
    → length s ≡ 2 * suc k
    → Halves (div_ℤ (wrap_64 (nth s k +ℤ nth s (suc k))) 2) s
middle_even s k a small l =
    let below : k < length s = omega (arith, l) in
    let above : suc k < length s = omega (arith, l) in
    let (low, high) =
      mean_between (nth s k) (nth s (suc k)) (All-nth Small s k small below)
        (All-nth Small s (suc k) small above) (nth_step s k a above) in
    let lower = count_below (div_ℤ (wrap_64 (nth s k +ℤ nth s (suc k))) 2) s k a below low in
    let upper = count_above (div_ℤ (wrap_64 (nth s k +ℤ nth s (suc k))) 2) s (suc k) a above high in
    (omega (arith, lower, l), omega (arith, upper, l))

middle_odd : (s : List ℤ) (k : ℕ) → Ascending s → length s ≡ suc (2 * k) → Halves (nth s k) s
middle_odd s k a l =
    let inside : k < length s = omega (arith, l) in
    let lower = count_below (nth s k) s k a inside (omega arith) in
    let upper = count_above (nth s k) s k a inside (omega arith) in
    (omega (arith, lower, l), omega (arith, upper, l))

middle_of_even :
    (s : List ℤ) (k : ℕ)
    → length s ≡ 2 * suc k
    → div_ℤ (wrap_64 (nth s k +ℤ nth s (suc k))) 2 ≡ middle s
unfolding middle
middle_of_even s k l =
    let half : length s / 2 ≡ suc k = omega (arith, l) in
    let before : length s / 2 - 1 ≡ k = omega (arith, l) in
    let even : (length s % 2 == 0) ≡ true = ground arith in
    let positive : ltb 0 (length s / 2) ≡ true = ground arith in
    rw (even, positive, before, half) refl

middle_of_odd : (s : List ℤ) → (length s % 2 == 0) ≡ false → nth s (length s / 2) ≡ middle s
unfolding middle
middle_of_odd s odd = rw odd refl

middle-Halves : (s : List ℤ) → Ascending s → All Small s → 0 < length s → Halves (middle s) s
middle-Halves s a small l = elim (Bool-cases (length s % 2 == 0)) [
  | inl e ↦
      let two : length s ≡ 2 * suc (length s / 2 - 1) = ground arith in
      subst (λ m. Halves m s) (middle_of_even s (length s / 2 - 1) two)
        (middle_even s (length s / 2 - 1) a small two)
  | inr e ↦
      subst (λ m. Halves m s) (middle_of_odd s e) (middle_odd s (length s / 2) a (ground arith))
]

-- For values of 63 bits, `CalculateMedian` returns a median: at least half of the values are at most
-- the result and at least half are at least the result.
pub calculate_median-Halves :
    (x : ℤ) (xs : List ℤ) → All Small (x ∷ xs) → Halves (calculate_median (x ∷ xs)) (x ∷ xs)
unfolding calculate_median
calculate_median-Halves x xs small =
    let m = middle (sort (x ∷ xs)) in
    let len = length-sort (x ∷ xs) in
    let (low, high) =
      middle-Halves (sort (x ∷ xs)) (sort-Ascending (x ∷ xs)) (All-sort Small (x ∷ xs) small)
        (omega (arith, len)) in
    (
      omega (arith, low, len, count_if-sort (λ y. leb_ℤ y m) (x ∷ xs)),
      omega (arith, high, len, count_if-sort (λ y. leb_ℤ m y) (x ∷ xs)),
    )
