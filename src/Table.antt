-- ===== src/Table.antt =====
-- A table of a database: its rows, in an order that no statement relies on.
pub mod Rows
use recallops.Common.{Bool, ℕ, List, Option, none, some, ◌∷◌, if◌then◌else◌, [], leb, ◌+◌}

module _ {ℓ} {A : Type ℓ} where
  -- `UPDATE … SET f WHERE p`: the number of rows that it changed, and the table after it.
  abbrev pub update_where : (A → Bool) → (A → A) → List A → ℕ × List A
  update_where p f [] = (0, [])
  update_where p f (x ∷ xs) =
      let (n, rest) = update_where p f xs in if p x then (n + 1, f x ∷ rest) else (n, x ∷ rest)

  -- The earlier of two rows by a key; of equal ones the first.
  abbrev pub earlier : (A → ℕ) → A → Option A → A
  earlier key x none = x
  earlier key x (some y) = if leb (key x) (key y) then x else y

  -- `SELECT … WHERE p ORDER BY key LIMIT 1`; rows of equal keys come in any order.
  abbrev pub select_first : (A → Bool) → (A → ℕ) → List A → Option A
  select_first p key [] = none
  select_first p key (x ∷ xs) =
      let rest = select_first p key xs in if p x then some (earlier key x rest) else rest
