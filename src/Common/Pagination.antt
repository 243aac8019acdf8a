-- ===== src/Common/Pagination.antt =====
-- internal/common/pagination.go. The query is its rows in the order of the query; `Offset` and
-- `Limit` set the bounds with which `All` reads them.
use tam_backend.Prelude.{
  ltb, ◌==◌, if◌then◌else◌, length, take, drop, ℤ, pos, negsuc, signed_64, Text, codes, text_eq,
  text_eq_sound, is_empty, ℕ, zero, suc, ◌+◌, ◌-◌, ◌*◌, ◌%◌, ◌≤◌, ◌≡◌, refl, ◌⊎◌, inl, inr, true,
  false, ◌||◌, List, [], ◌∷◌, ◌++◌, arith,
}

abbrev max_take : ℕ
max_take = 100

abbrev default_page : ℕ
default_page = 1

abbrev default_take : ℕ
default_take = 20

abbrev asc : Text
asc = codes "ASC"

abbrev desc : Text
desc = codes "DESC"

pub data PageError : Type 0 where
  take_exceeded bad_order : PageError

pub data PageOptions : Type 0 where
  options : ℕ → ℕ → Text → PageOptions
  refused : PageError → PageOptions

-- A number that is not positive is replaced by its default.
abbrev pub or_default : ℤ → ℕ → ℕ
or_default n d = elim n [ pos k ↦ if k == 0 then d else k | negsuc k ↦ d ]

abbrev pub or_desc : Text → Text
or_desc order = if is_empty order then desc else order

-- `ValidateAndNormalizePageOptions`.
unfoldable pub validate_and_normalize_page_options : ℤ → ℤ → Text → PageOptions
validate_and_normalize_page_options page take order =
    let p = or_default page default_page in
    let t = or_default take default_take in
    let o = or_desc order in
    if ltb max_take t
    then refused take_exceeded
    else if text_eq o asc || text_eq o desc
    then options p t o
    else refused bad_order

pub data Page {ℓ} (A : Type ℓ) : Type ℓ where
  page_of : List A → ℕ → Page A
  page_refused : Page A

module _ {ℓ} {A : Type ℓ} where
  -- `Paginate`. The offset wraps around at 64 bits, and the database refuses a negative one.
  unfoldable pub paginate : ℤ → ℤ → List A → Page A
  paginate page size rows =
      let p = or_default page 1 in
      let t = or_default size 20 in
      if ltb max_take t
      then page_refused
      else elim (signed_64 ((p - 1) * t % 18446744073709551616)) [
        | pos offset ↦ page_of (take t (drop offset rows)) (length rows)
        | negsuc n ↦ page_refused
      ]

  abbrev pub page_rows : Page A → List A
  page_rows page_refused = []
  page_rows (page_of rows count) = rows

  -- The rows of the pages 1 to n, one behind the other.
  abbrev pub first_pages : ℕ → ℕ → List A → List A
  first_pages zero size rows = []
  first_pages (suc n) size rows =
      first_pages n size rows ++ page_rows (paginate (pos (suc n)) (pos size) rows)

or_default-pos : (n : ℤ) (d : ℕ) → 1 ≤ d → 1 ≤ or_default n d
or_default-pos n d h = ground arith

pub options_again :
    (p t : ℕ) (o : Text)
    → 1 ≤ p
    → 1 ≤ t
    → t ≤ 100
    → (o ≡ asc) ⊎ (o ≡ desc)
    → validate_and_normalize_page_options (pos p) (pos t) o ≡ options p t o
unfolding validate_and_normalize_page_options text_eq
options_again p t o hp ht hm (inl e) = rw e (ground arith)
options_again p t o hp ht hm (inr e) = rw e (ground arith)

known_order : (o : Text) → text_eq o asc || text_eq o desc ≡ true → (o ≡ asc) ⊎ (o ≡ desc)
known_order o h = ground (arith, text_eq_sound o asc, text_eq_sound o desc)

options-injective :
    {p t p' t' : ℕ} {o o' : Text}
    → options p t o ≡ options p' t' o'
    → (p ≡ p') × (t ≡ t') × (o ≡ o')
options-injective h = ground arith

-- Accepted options are in range, whatever was asked for: a page from 1, a size from 1 to 100, and
-- one of the two orders; normalising them again changes nothing.
validate_and_normalize_page_options-range :
    (page size : ℤ) (order : Text) (p t : ℕ) (o : Text)
    → validate_and_normalize_page_options page size order ≡ options p t o
    → (1 ≤ p)
      × (1 ≤ t)
      × (t ≤ 100)
      × ((o ≡ codes "ASC") ⊎ (o ≡ codes "DESC"))
      × (validate_and_normalize_page_options (pos p) (pos t) o ≡ options p t o)
unfolding validate_and_normalize_page_options
validate_and_normalize_page_options-range page size order p t o h = ground (
  arith,
  or_default-pos page default_page,
  or_default-pos size default_take,
  known_order (or_desc order),
  options_again p t o,
)

exact_offset : (m : ℕ) → m ≤ 9223372036854775807 → signed_64 (m % 18446744073709551616) ≡ pos m
exact_offset m h = ground arith

module _ {ℓ} {A : Type ℓ} where
  take-nil : (n : ℕ) → ◌≡◌ {A = List A} (take n []) []
  take-nil zero = refl
  take-nil (suc n) = refl

  take-append-take-drop :
      (n m : ℕ) (xs : List A) → take n xs ++ take m (drop n xs) ≡ take (n + m) xs
  take-append-take-drop zero m xs = let e : zero + m ≡ m = omega arith in rw e
  take-append-take-drop (suc n) m [] =
      let e : suc n + m ≡ suc (n + m) = omega arith in rw (e, take-nil m)
  take-append-take-drop (suc n) m (x ∷ xs) =
      let e : suc n + m ≡ suc (n + m) = omega arith in rw (e, take-append-take-drop n m xs)

  paginate_rows :
      (n size : ℕ) (rows : List A)
      → 1 ≤ size
      → size ≤ 100
      → n * size ≤ 9223372036854775807
      → page_rows (paginate (pos (suc n)) (pos size) rows) ≡ take size (drop (n * size) rows)
  unfolding paginate
  paginate_rows n size rows h k m =
      let given : (size == 0) ≡ false = ground arith in
      let small : ltb max_take size ≡ false = ground arith in
      let before : or_default (pos (suc n)) 1 - 1 ≡ n = ground arith in
      let exact : signed_64 (n * size % 18446744073709551616) ≡ pos (n * size) =
        exact_offset (n * size) m in
      rw (given, small, before, exact, given)

  -- The pages follow one another without a gap or an overlap: the rows of the pages 1 to n of a size
  -- from 1 to 100 are the first n times that many rows of the query, as far as 64 bits hold the offset.
  pub first_pages_lem :
      (n size : ℕ) (rows : List A)
      → 1 ≤ size
      → size ≤ 100
      → n * size ≤ 9223372036854775807
      → first_pages n size rows ≡ take (n * size) rows
  first_pages_lem zero size rows h k m = let e : zero * size ≡ 0 = omega arith in rw e
  first_pages_lem (suc n) size rows h k m =
      let e : suc n * size ≡ n * size + size = omega arith in
      rw (
        e,
        paginate_rows n size rows h k (omega arith),
        first_pages_lem n size rows h k (omega arith),
        take-append-take-drop (n * size) size rows,
      )
