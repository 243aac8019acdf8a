-- ===== src/StatsBot/Languages/Shares.antt =====
-- The shares of the languages.
use native.Mathlib.Nat.{div-mul-le_self, lt-div-mul-add, le_of_mul-le-mul_right, mul_comm}
use tam_backend.Prelude.{
  ◌==◌, Bool-cases, length, Text, ℕ, suc, ◌+◌, ◌*◌, ◌/◌, ◌≤◌, ◌<◌, ◌≡◌, refl, sym, ap, ◌∙◌, subst,
  ◌⊎◌, inl, inr, Option, none, some, List, [], ◌∷◌, map, arith,
}
use tam_backend.StatsBot.Languages.{
  Cell, word, number, other_value, GraphData, LangData, sum_cells, read_column, read_columns,
  total_of, LanguageStat, stat_of, stats_of, column_stats, parse_languages_stats,
}

abbrev pub ratios : List LanguageStat → ℕ
ratios [] = 0
ratios (s ∷ ss) = s.ratio + ratios ss

-- Truncated shares do not exceed the whole, and lose less than one each.
module _ (sum : ℕ) (some_users : 1 ≤ sum) where
  share-upper : (x : ℕ) → x / sum * sum ≤ x
  share-upper x = div-mul-le_self x sum

  share-lower : (x : ℕ) → x < x / sum * sum + sum
  share-lower x = lt-div-mul-add some_users

  ratios-upper : (ls : List LangData) → ratios (map (stat_of sum) ls) * sum ≤ total_of ls * 10000
  unfolding total_of
  ratios-upper [] = omega arith
  ratios-upper (l ∷ ls) = omega (arith, share-upper (l.lang_total * 10000), ratios-upper ls)

  ratios-lower :
      (ls : List LangData) → total_of ls * 10000 ≤ (ratios (map (stat_of sum) ls) + length ls) * sum
  unfolding total_of
  ratios-lower [] = omega arith
  ratios-lower (l ∷ ls) = omega (arith, share-lower (l.lang_total * 10000), ratios-lower ls)

  bounded : (r s : ℕ) → r * sum ≤ s * sum → r ≤ s
  bounded r s h = le_of_mul-le-mul_right h some_users

module _ (ls : List LangData) (some_users : 1 ≤ total_of ls) where
  shares-upper : ratios (map (stat_of (total_of ls)) ls) ≤ 10000
  shares-upper =
      bounded (total_of ls) some_users _ _
        (omega (arith, ratios-upper (total_of ls) some_users ls, mul_comm (total_of ls) 10000))

  shares-lower : 10000 ≤ ratios (map (stat_of (total_of ls)) ls) + length ls
  shares-lower =
      bounded (total_of ls) some_users _ _
        (omega (arith, ratios-lower (total_of ls) some_users ls, mul_comm (total_of ls) 10000))

-- The users that a value of a column counts.
abbrev users_of : Cell → ℕ
users_of (number n) = n
users_of (word t) = 0
users_of other_value = 0

abbrev sum : List ℕ → ℕ
sum [] = 0
sum (n ∷ ns) = n + sum ns

-- The users of each language: a column that names a language and has at least one value behind the name.
abbrev pub user_counts : List (List Cell) → List ℕ
user_counts [] = []
user_counts ((word key ∷ cell ∷ cells) ∷ cs) = sum (map users_of (cell ∷ cells)) ∷ user_counts cs
user_counts (_ ∷ cs) = user_counts cs

-- The columns behind that of the dates.
abbrev pub language_columns : Option GraphData → List (List Cell)
language_columns none = []
language_columns (some g) = elim g.columns [ [] ↦ [] | dates ∷ cs ↦ cs ]

-- The statistics of languages with so many users: none if there are no users, and otherwise one for
-- each language, with its users and a ratio, where the ratios add up to the whole of 10000 less at
-- most one for each language.
abbrev pub Shared : List ℕ → List LanguageStat → Type 0
Shared ns ss =
    ((sum ns ≡ 0) × (ss ≡ []))
    ⊎ ((1 ≤ sum ns)
        × (map (λ s. s.stat_total) ss ≡ ns)
        × (ratios ss ≤ 10000)
        × (10000 ≤ ratios ss + length ns))

sum_cells-sum : (cells : List Cell) → sum_cells cells ≡ sum (map users_of cells)
unfolding sum_cells
sum_cells-sum [] = refl
sum_cells-sum (number n ∷ cells) = ap (λ k. n + k) (sum_cells-sum cells)
sum_cells-sum (word t ∷ cells) = omega (arith, sum_cells-sum cells)
sum_cells-sum (other_value ∷ cells) = omega (arith, sum_cells-sum cells)

read_columns-user_counts :
    (names : List (Text × Text)) (cs : List (List Cell))
    → map (λ l. l.lang_total) (read_columns names cs) ≡ user_counts cs
unfolding read_columns read_column
read_columns-user_counts names [] = refl
read_columns-user_counts names ([] ∷ cs) = read_columns-user_counts names cs
read_columns-user_counts names ((word key ∷ []) ∷ cs) = read_columns-user_counts names cs
read_columns-user_counts names ((word key ∷ cell ∷ cells) ∷ cs) =
    ap (λ n. n ∷ map (λ l. l.lang_total) (read_columns names cs)) (sum_cells-sum (cell ∷ cells))
    ∙ ap (λ ns. sum (map users_of (cell ∷ cells)) ∷ ns) (read_columns-user_counts names cs)
read_columns-user_counts names ((number n ∷ cells) ∷ cs) = read_columns-user_counts names cs
read_columns-user_counts names ((other_value ∷ cells) ∷ cs) = read_columns-user_counts names cs

total_of-sum : (ls : List LangData) → total_of ls ≡ sum (map (λ l. l.lang_total) ls)
unfolding total_of
total_of-sum [] = refl
total_of-sum (l ∷ ls) = ap (λ n. l.lang_total + n) (total_of-sum ls)

totals-kept :
    (n : ℕ) (ls : List LangData)
    → map (λ s. s.stat_total) (map (stat_of n) ls) ≡ map (λ l. l.lang_total) ls
totals-kept n [] = refl
totals-kept n (l ∷ ls) = ap (λ ns. l.lang_total ∷ ns) (totals-kept n ls)

length-totals : (ls : List LangData) → length (map (λ l. l.lang_total) ls) ≡ length ls
length-totals [] = refl
length-totals (l ∷ ls) = ap suc (length-totals ls)

stats_of-Shared : (ls : List LangData) → Shared (map (λ l. l.lang_total) ls) (stats_of ls)
stats_of-Shared ls = elim (Bool-cases (total_of ls == 0)) [
  | inl e ↦ rw e (inl (sym (total_of-sum ls) ∙ ground arith, refl))
  | inr e ↦
      let some_users : 1 ≤ total_of ls = ground arith in
      rw e (
        inr (
          subst (λ n. 1 ≤ n) (total_of-sum ls) some_users,
          totals-kept (total_of ls) ls,
          shares-upper ls some_users,
          subst (λ n. 10000 ≤ ratios (map (stat_of (total_of ls)) ls) + n) (sym (length-totals ls))
              (shares-lower ls some_users),
        ))
]

column_stats-Shared :
    (names : List (Text × Text)) (dates : List Cell) (cs : List (List Cell))
    → Shared (user_counts cs) (column_stats names (dates ∷ cs))
unfolding column_stats
column_stats-Shared names dates cs =
    subst (λ ns. Shared ns (stats_of (read_columns names cs))) (read_columns-user_counts names cs)
      (stats_of-Shared (read_columns names cs))

graph-Shared :
    (names : List (Text × Text)) (columns : List (List Cell))
    → Shared (user_counts (elim columns [ [] ↦ [] | dates ∷ cs ↦ cs ])) (column_stats names columns)
unfolding column_stats
graph-Shared names [] = inl (refl, refl)
graph-Shared names (dates ∷ cs) = column_stats-Shared names dates cs

-- The statistics bot stores no languages if the columns behind that of the dates count no users of a
-- language; otherwise it stores one entry for each language, with the sum of the numbers of its column as
-- its users, and with ratios, in ten-thousandths and cut off, that are together at most the whole
-- and fall short of it by at most one for each language.
pub parse_languages_stats-Shared :
    (g : Option GraphData) → Shared (user_counts (language_columns g)) (parse_languages_stats g)
unfolding parse_languages_stats
parse_languages_stats-Shared none = inl (refl, refl)
parse_languages_stats-Shared (some g) = graph-Shared g.names g.columns
