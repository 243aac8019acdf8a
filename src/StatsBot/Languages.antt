-- ===== src/StatsBot/Languages.antt =====
-- `parseLanguagesStats` and `loadGraph` of internal/modules/stats_bot/channel_posts.go. The decoder of
-- JSON is not source: the model starts with what it reads. A count is a number of users; a ratio is in
-- ten-thousandths, as the code truncates it, and the rounding of float64 is not modelled.
pub mod Shares
use tam_backend.Prelude.{
  ◌==◌, if◌then◌else◌, Text, text_eq, is_empty, ℕ, ◌+◌, ◌*◌, ◌/◌, Option, none, some, List, [], ◌∷◌,
  map,
}

-- A value of a column.
pub data Cell : Type 0 where
  word : Text → Cell
  number : ℕ → Cell
  other_value : Cell

-- The local `GraphData`.
pub record GraphData : Type 0 where
  pub columns : List (List Cell)
  pub names : List (Text × Text)

-- `data.Names[key]`, empty if it is missing.
unfoldable pub name_of : Text → List (Text × Text) → Text
name_of key [] = []
name_of key ((k, n) ∷ names) = let rest = name_of key names in if text_eq k key then n else rest

-- The local `langData`, without its key.
pub record LangData : Type 0 where
  pub lang_name : Text
  pub lang_total : ℕ

unfoldable pub sum_cells : List Cell → ℕ
sum_cells [] = 0
sum_cells (number n ∷ cells) = n + sum_cells cells
sum_cells (word t ∷ cells) = sum_cells cells
sum_cells (other_value ∷ cells) = sum_cells cells

-- The body of the first loop: a column with a key and at least one value.
unfoldable pub read_column : List (Text × Text) → List Cell → Option LangData
read_column names (word key ∷ cell ∷ cells) =
    let name = name_of key names in
    some (record {
      lang_name = if is_empty name then key else name;
      lang_total = sum_cells (cell ∷ cells);
    })
read_column names _ = none

unfoldable pub read_columns : List (Text × Text) → List (List Cell) → List LangData
read_columns names [] = []
read_columns names (c ∷ cs) = elim (read_column names c) [
  | none ↦ read_columns names cs
  | some l ↦ l ∷ read_columns names cs
]

-- `langTotal`.
unfoldable pub total_of : List LangData → ℕ
total_of [] = 0
total_of (l ∷ ls) = l.lang_total + total_of ls

-- `common.LanguageStat`.
pub record LanguageStat : Type 0 where
  pub stat_name : Text
  pub stat_total : ℕ
  pub ratio : ℕ

abbrev pub stat_of : ℕ → LangData → LanguageStat
stat_of sum l = record {
  stat_name = l.lang_name;
  stat_total = l.lang_total;
  ratio = l.lang_total * 10000 / sum;
}

abbrev pub stats_of : List LangData → List LanguageStat
stats_of ls = if total_of ls == 0 then [] else map (stat_of (total_of ls)) ls

-- The first column is that of the dates.
unfoldable pub column_stats : List (Text × Text) → List (List Cell) → List LanguageStat
column_stats names [] = []
column_stats names (dates ∷ columns) = stats_of (read_columns names columns)

-- `parseLanguagesStats`.
unfoldable pub parse_languages_stats : Option GraphData → List LanguageStat
parse_languages_stats none = []
parse_languages_stats (some g) = column_stats g.names g.columns

-- The classes of a graph.
pub data StatsGraph : Type 0 where
  async_graph sync_graph : Text → StatsGraph
  graph_error other_graph : StatsGraph

-- `loadGraph`: what is stored afterwards; `load` is the client's `LoadAsyncGraph`.
unfoldable pub load_graph : (Text → Option Text) → StatsGraph → Text → Text
load_graph load (async_graph token) old =
    if is_empty token then old else elim (load token) [ none ↦ old | some graph ↦ graph ]
load_graph load (sync_graph json) old = if is_empty json then old else json
load_graph load graph_error old = old
load_graph load other_graph old = old
