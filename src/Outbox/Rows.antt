-- ===== src/Outbox/Rows.antt =====
-- Tables whose rows are told apart by a numeric key, and what UPDATE leaves of such keys.
use mern_chat_app.Common.{
  ℕ, ◌<◌, ◌≡◌, refl, sym, ◌≢◌, inl, inr, Bool, List, [], ◌∷◌, map, All, In, arith, ◌∙◌,
}
use mern_chat_app.Common.Sql.{update}

-- The keys rise along the list, and stay below a bound.
abbrev pub Rises : List ℕ → Type 0
Rises [] = Unit
Rises (k ∷ ks) = All (λ j. k < j) ks × Rises ks

abbrev pub Distinct : List ℕ → Type 0
Distinct [] = Unit
Distinct (k ∷ ks) = All (λ j. k ≢ j) ks × Distinct ks

module _ {A : Type 0} (key : A → ℕ) where
  in-All-keys :
      (P : ℕ → Type 0) (a : A) (rows : List A) → All P (map key rows) → In a rows → P (key a)
  in-All-keys P a [] h m = elim m [ ]
  in-All-keys P a (r ∷ rows) h (inl e) = rw e h.0
  in-All-keys P a (r ∷ rows) h (inr m) = in-All-keys P a rows h.1 m

  -- Two rows with one key are one row.
  pub same_row :
      (a b : A) (rows : List A)
      → Distinct (map key rows)
      → In a rows
      → In b rows
      → key a ≡ key b
      → a ≡ b
  same_row a b [] d m n e = elim m [ ]
  same_row a b (r ∷ rows) d (inl p) (inl q) e = p ∙ sym q
  same_row a b (r ∷ rows) d (inl p) (inr n) e =
      absurd (in-All-keys (λ j. key r ≢ j) b rows d.0 n (rw (← p) e))
  same_row a b (r ∷ rows) d (inr m) (inl q) e =
      absurd (in-All-keys (λ j. key r ≢ j) a rows d.0 m (rw (← q) (sym e)))
  same_row a b (r ∷ rows) d (inr m) (inr n) e = same_row a b rows d.1 m n e

  -- An UPDATE that leaves the key alone leaves the list of keys.
  pub keys-update :
      (p : A → Bool) (f : A → A) (rows : List A)
      → ((a : A) → key (f a) ≡ key a)
      → map key (update p f rows) ≡ map key rows
  keys-update p f [] h = refl
  keys-update p f (r ∷ rows) h = ground (arith, h r, keys-update p f rows h)

pub Distinct-of_Rises : (ks : List ℕ) → Rises ks → Distinct ks
Distinct-of_Rises [] r = tt
Distinct-of_Rises (k ∷ ks) r = (All-ne ks r.0, Distinct-of_Rises ks r.1)
  where
    All-ne : (js : List ℕ) → All (λ j. k < j) js → All (λ j. k ≢ j) js
    All-ne [] h = tt
    All-ne (j ∷ js) h = (omega arith, All-ne js h.1)
