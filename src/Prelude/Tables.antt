-- ===== src/Prelude/Tables.antt =====
-- A table of the database as a list of rows, the newest first: `findFirst`, `updateMany` and
-- `deleteMany` over a condition.
use Prim.Native.Nat.{ℕ, suc}
use mathlib.Core.Bool.{Bool}
use mathlib.Core.Option.{Option, none, some}
use mathlib.Core.List.{List, [], ◌∷◌}
use pactagent.Prelude.Tests.{if◌then◌else◌}

module _ {ℓ} {A : Type ℓ} where
  unfoldable pub find_first : (A → Bool) → List A → Option A
  find_first test [] = none
  find_first test (x ∷ xs) = if test x then some x else find_first test xs

  -- The rows with the change, and the number of rows that changed.
  unfoldable pub update_rows : (A → Bool) → (A → A) → List A → List A
  update_rows test change [] = []
  update_rows test change (x ∷ xs) = (if test x then change x else x) ∷ update_rows test change xs

  unfoldable pub count_rows : (A → Bool) → List A → ℕ
  count_rows test [] = 0
  count_rows test (x ∷ xs) = if test x then suc (count_rows test xs) else count_rows test xs

  unfoldable pub delete_rows : (A → Bool) → List A → List A
  delete_rows test [] = []
  delete_rows test (x ∷ xs) = if test x then delete_rows test xs else x ∷ delete_rows test xs
