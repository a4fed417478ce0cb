-- ===== src/Common/Sql.antt =====
-- The clauses of the SQL statements, over a table that is the list of its rows.
use mathlib.Core.Bool.{Bool}
use mathlib.Core.List.{List, [], ◌∷◌}
use mern_chat_app.Common.Tests.{if◌then◌else◌}

module _ {ℓ} {A : Type ℓ} where
  -- SELECT ... WHERE p.
  abbrev pub select : (A → Bool) → List A → List A
  select p [] = []
  select p (r ∷ rows) = if p r then r ∷ select p rows else select p rows

  -- UPDATE ... SET f WHERE p.
  abbrev pub update : (A → Bool) → (A → A) → List A → List A
  update p f [] = []
  update p f (r ∷ rows) = (if p r then f r else r) ∷ update p f rows

  -- DELETE ... WHERE p.
  abbrev pub delete : (A → Bool) → List A → List A
  delete p [] = []
  delete p (r ∷ rows) = if p r then delete p rows else r ∷ delete p rows

  -- One row of ORDER BY: `le` is the order of the keys.
  abbrev pub insert_by : (A → A → Bool) → A → List A → List A
  insert_by le r [] = r ∷ []
  insert_by le r (s ∷ rows) = if le r s then r ∷ s ∷ rows else s ∷ insert_by le r rows

  -- ORDER BY, and `Array.prototype.sort`: rows with equal keys stay in their order.
  abbrev pub order_by : (A → A → Bool) → List A → List A
  order_by le [] = []
  order_by le (r ∷ rows) = insert_by le r (order_by le rows)
