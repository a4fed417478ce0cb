-- ===== src/Common/Sorting.antt =====
-- Laws of the SQL clauses.
use Prim.Native.Nat.{ℕ, zero, suc, ◌≤◌, ◌<◌}
use mathlib.Core.Path.{◌≡◌, refl, ap}
use mathlib.Core.Logic.{◌⊎◌, inl, inr}
use mathlib.Core.Bool.{Bool, true, false}
use mathlib.Core.List.{List, [], ◌∷◌}
use native.Mathlib.Omega.{arith}
use mern_chat_app.Common.Tests.{if◌then◌else◌, leb}
use mern_chat_app.Common.Lists.{All, In, take, All-take, in-All}
use mern_chat_app.Common.Sql.{select, update, delete, insert_by, order_by}

module _ {A : Type 0} where
  pub In-select :
      (p : A → Bool) (a : A) (rows : List A) → In a rows → p a ≡ true → In a (select p rows)
  In-select p a [] m h = elim m [ ]
  In-select p a (r ∷ rows) (inl e) h = rw (← e, h) (inl refl)
  In-select p a (r ∷ rows) (inr m) h = ground (arith, In-select p a rows m h)

  pub In-of_select :
      (p : A → Bool) (a : A) (rows : List A) → In a (select p rows) → In a rows × (p a ≡ true)
  In-of_select p a [] m = elim m [ ]
  In-of_select p a (r ∷ rows) m = ground (arith, In-of_select p a rows)

  pub select-eq-nil :
      (p : A → Bool) (rows : List A) (a : A) → select p rows ≡ [] → In a rows → p a ≡ false
  select-eq-nil p [] a e m = elim m [ ]
  select-eq-nil p (r ∷ rows) a e (inl h) = rw h (ground arith)
  select-eq-nil p (r ∷ rows) a e (inr h) = ground (arith, select-eq-nil p rows a)

  pub In-delete :
      (p : A → Bool) (a : A) (rows : List A) → In a rows → p a ≡ false → In a (delete p rows)
  In-delete p a [] m h = elim m [ ]
  In-delete p a (r ∷ rows) (inl e) h = rw (← e, h) (inl refl)
  In-delete p a (r ∷ rows) (inr m) h = ground (arith, In-delete p a rows m h)

  pub In-of_delete :
      (p : A → Bool) (a : A) (rows : List A) → In a (delete p rows) → In a rows × (p a ≡ false)
  In-of_delete p a [] m = elim m [ ]
  In-of_delete p a (r ∷ rows) m = ground (arith, In-of_delete p a rows)

  pub In-update :
      (p : A → Bool) (f : A → A) (a : A) (rows : List A)
      → In a rows
      → In (if p a then f a else a) (update p f rows)
  In-update p f a [] m = elim m [ ]
  In-update p f a (r ∷ rows) (inl e) = inl (rw e refl)
  In-update p f a (r ∷ rows) (inr m) = inr (In-update p f a rows m)

  pub In-update_hit :
      (p : A → Bool) (f : A → A) (a : A) (rows : List A)
      → In a rows
      → p a ≡ true
      → In (f a) (update p f rows)
  In-update_hit p f a rows m h = rw h at (In-update p f a rows m)

  pub In-update_miss :
      (p : A → Bool) (f : A → A) (a : A) (rows : List A)
      → In a rows
      → p a ≡ false
      → In a (update p f rows)
  In-update_miss p f a rows m h = rw h at (In-update p f a rows m)

  pub In-of_update :
      (p : A → Bool) (f : A → A) (b : A) (rows : List A)
      → In b (update p f rows)
      → (a : A) × In a rows × (b ≡ (if p a then f a else a))
  In-of_update p f b [] m = elim m [ ]
  In-of_update p f b (r ∷ rows) (inl e) = (r, inl refl, e)
  In-of_update p f b (r ∷ rows) (inr m) = let (a, h, e) = In-of_update p f b rows m in (a, inr h, e)

  In-of_insert_by :
      (le : A → A → Bool) (r a : A) (rows : List A)
      → In a (insert_by le r rows)
      → (a ≡ r) ⊎ In a rows
  In-of_insert_by le r a [] m = m
  In-of_insert_by le r a (s ∷ rows) m = ground (arith, In-of_insert_by le r a rows)

  In-insert_by :
      (le : A → A → Bool) (r a : A) (rows : List A)
      → (a ≡ r) ⊎ In a rows
      → In a (insert_by le r rows)
  In-insert_by le r a [] m = m
  In-insert_by le r a (s ∷ rows) m = ground (arith, In-insert_by le r a rows)

  pub In-of_order_by :
      (le : A → A → Bool) (a : A) (rows : List A) → In a (order_by le rows) → In a rows
  In-of_order_by le a [] m = m
  In-of_order_by le a (r ∷ rows) m = elim (In-of_insert_by le r a (order_by le rows) m) [
    | inl e ↦ inl e
    | inr h ↦ inr (In-of_order_by le a rows h)
  ]

  pub In-order_by :
      (le : A → A → Bool) (a : A) (rows : List A) → In a rows → In a (order_by le rows)
  In-order_by le a [] m = m
  In-order_by le a (r ∷ rows) (inl e) = In-insert_by le r a (order_by le rows) (inl e)
  In-order_by le a (r ∷ rows) (inr h) =
      In-insert_by le r a (order_by le rows) (inr (In-order_by le a rows h))

-- The keys do not fall along the list.
abbrev pub IsOrdered : {A : Type 0} → (A → ℕ) → List A → Type 0
IsOrdered key [] = Unit
IsOrdered key (r ∷ rows) = All (λ s. key r ≤ key s) rows × IsOrdered key rows

-- The order of a numeric column.
abbrev pub by_key : {A : Type 0} → (A → ℕ) → A → A → Bool
by_key key a b = leb (key a) (key b)

module _ {A : Type 0} (key : A → ℕ) where
  All-insert_by :
      (n : ℕ) (r : A) (rows : List A)
      → n ≤ key r
      → All (λ s. n ≤ key s) rows
      → All (λ s. n ≤ key s) (insert_by (by_key key) r rows)
  All-insert_by n r [] h k = (h, tt)
  All-insert_by n r (s ∷ rows) h k = ground (arith, All-insert_by n r rows h k.1)

  All-le_trans :
      (m n : ℕ) (rows : List A) → m ≤ n → All (λ s. n ≤ key s) rows → All (λ s. m ≤ key s) rows
  All-le_trans m n [] h k = tt
  All-le_trans m n (s ∷ rows) h k = (omega arith, All-le_trans m n rows h k.1)

  insert_by-IsOrdered :
      (r : A) (rows : List A) → IsOrdered key rows → IsOrdered key (insert_by (by_key key) r rows)
  insert_by-IsOrdered r [] o = (tt, tt)
  insert_by-IsOrdered r (s ∷ rows) o = ground (
    arith,
    insert_by-IsOrdered r rows o.1,
    All-insert_by (key s) r rows,
    All-le_trans (key r) (key s) rows,
  )

  pub order_by-IsOrdered : (rows : List A) → IsOrdered key (order_by (by_key key) rows)
  order_by-IsOrdered [] = tt
  order_by-IsOrdered (r ∷ rows) =
      insert_by-IsOrdered r (order_by (by_key key) rows) (order_by-IsOrdered rows)

  pub take-IsOrdered : (n : ℕ) (rows : List A) → IsOrdered key rows → IsOrdered key (take n rows)
  take-IsOrdered zero rows o = tt
  take-IsOrdered (suc n) [] o = tt
  take-IsOrdered (suc n) (r ∷ rows) o =
      (All-take (λ s. key r ≤ key s) n rows o.0, take-IsOrdered n rows o.1)

  -- LIMIT keeps a prefix: a row with a smaller key than a kept one is kept.
  pub In-take_below :
      (n : ℕ) (a b : A) (rows : List A)
      → IsOrdered key rows
      → In a rows
      → In b (take n rows)
      → key a < key b
      → In a (take n rows)
  In-take_below zero a b rows o m k h = elim k [ ]
  In-take_below (suc n) a b [] o m k h = elim m [ ]
  In-take_below (suc n) a b (r ∷ rows) o (inl e) k h = inl e
  In-take_below (suc n) a b (r ∷ rows) o (inr m) (inl e) h =
      absurd (omega (arith, in-All (λ s. key r ≤ key s) a rows o.0 m, ap key e))
  In-take_below (suc n) a b (r ∷ rows) o (inr m) (inr k) h =
      inr (In-take_below n a b rows o.1 m k h)
