-- ===== src/Prelude/Tables.antt =====
-- A database table: rows beside their primary keys. The key is unique in the database, so an
-- update by key changes one row, the first that has the key.
use Prim.Native.Nat.{ℕ}
use mathlib.Core.Path.{◌≡◌, refl}
use mathlib.Core.Logic.{◌≢◌}
use mathlib.Core.Option
use mathlib.Core.Option.{Option, none, some}
use mathlib.Core.List.{List, [], ◌∷◌}
use native.Mathlib.Omega.{arith}
use tam_backend.Prelude.Tests.{◌==◌, if◌then◌else◌}
use tam_backend.Prelude.Int.{ℤ, pos, ◌+ℤ◌, int_laws}

abbrev pub Table {ℓ} : Type ℓ → Type ℓ
Table A = List (ℕ × A)

module _ {ℓ} {A : Type ℓ} where
  abbrev pub lookup : ℕ → Table A → Option A
  lookup k [] = none
  lookup k ((j, v) ∷ t) = if k == j then some v else lookup k t

  -- `UPDATE … WHERE id = k`.
  abbrev pub modify : ℕ → (A → A) → Table A → Table A
  modify k f [] = []
  modify k f ((j, v) ∷ t) = if k == j then (j, f v) ∷ t else (j, v) ∷ modify k f t

module _ {ℓ} {A : Type ℓ} (k : ℕ) (f : A → A) where
  pub lookup-modify_self : (t : Table A) → lookup k (modify k f t) ≡ Option.map f (lookup k t)
  lookup-modify_self [] = refl
  lookup-modify_self ((j, v) ∷ t) = ground (arith, lookup-modify_self t)

  pub lookup-modify_ne : (i : ℕ) (t : Table A) → i ≢ k → lookup i (modify k f t) ≡ lookup i t
  lookup-modify_ne i [] h = refl
  lookup-modify_ne i ((j, v) ∷ t) h = ground (arith, lookup-modify_ne i t h)

  pub lookup-modify-some :
      (t : Table A) (v : A) → lookup k t ≡ some v → lookup k (modify k f t) ≡ some (f v)
  lookup-modify-some [] v h = cc
  lookup-modify-some ((j, w) ∷ t) v h = ground (arith, lookup-modify-some t v)

  -- Without the row nothing is updated.
  pub modify-missing : (t : Table A) → lookup k t ≡ none → modify k f t ≡ t
  modify-missing [] h = refl
  modify-missing ((j, w) ∷ t) h = ground (arith, modify-missing t)

-- The sum of a quantity over a table, and what an update does to it.
module _ {ℓ} {A : Type ℓ} (g : A → ℤ) where
  abbrev pub sum_rows : Table A → ℤ
  sum_rows [] = pos 0
  sum_rows ((j, v) ∷ t) = g v +ℤ sum_rows t

  pub sum_rows-modify :
      (k : ℕ) (f : A → A) (v : A) (t : Table A)
      → lookup k t ≡ some v
      → sum_rows (modify k f t) +ℤ g v ≡ sum_rows t +ℤ g (f v)
  sum_rows-modify k f v [] h = cc
  sum_rows-modify k f v ((j, w) ∷ t) h = grind (int_laws, sum_rows-modify k f v t)
