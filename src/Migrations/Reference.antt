-- ===== src/Migrations/Reference.antt =====
-- A run through the scripts that nothing breaks off, and the same for one script after another on the
-- database.
use mern_chat_app.Common.{
  Text, text_eq, text_eq_refl, any, true, ◌≡◌, refl, Option, none, some, List, [], ◌∷◌, ◌++◌, All,
  if◌then◌else◌, arith, inl, inr, Bool-cases, Option-cases, ◌∙◌, ap, ◌⊎◌, subst, sym,
}
use mern_chat_app.Errors.{ok, err}
use mern_chat_app.Migrations.{MigrationDb, File, version_of}

-- The versions in the table.
abbrev pub seen : {S : Type 0} → MigrationDb S → List Text
seen d = elim d.migrations [ none ↦ [] | some vs ↦ vs ]

abbrev pub stored : {S : Type 0} → MigrationDb S → Text → Option S → Option (MigrationDb S)
stored d version none = none
stored d version (some s) = some (record { migrations = some (seen d ++ version ∷ []); schema = s })

-- One script: nothing if its version is in the table, else the script and its version.
abbrev pub once :
    {S : Type 0} → (Text → S → Option S) → Text → Text → MigrationDb S → Option (MigrationDb S)
once apply_sql version sql d =
    if any (text_eq version) (seen d) then some d else stored d version (apply_sql sql d.schema)

abbrev pub once_file :
    {S : Type 0} → (Text → S → Option S) → File → MigrationDb S → Option (MigrationDb S)
once_file apply_sql (file, err e) d = none
once_file apply_sql (file, ok sql) d = once apply_sql (version_of file) sql d

abbrev pub each_once :
    {S : Type 0} → (Text → S → Option S) → List File → MigrationDb S → Option (MigrationDb S)
each_once apply_sql [] d = some d
each_once apply_sql (f ∷ files) d = elim (once_file apply_sql f d) [
  | none ↦ none
  | some d' ↦ each_once apply_sql files d'
]

-- There is a table.
abbrev pub HasTable : {S : Type 0} → MigrationDb S → Type 0
HasTable d = d.migrations ≡ some (seen d)

some_inj : {A : Type 0} (a b : A) → some a ≡ some b → a ≡ b
some_inj a b e = ground arith

module _ {S : Type 0} (apply_sql : Text → S → Option S) where
  pub once-HasTable :
      (f : File) (d d' : MigrationDb S)
      → HasTable d
      → once_file apply_sql f d ≡ some d'
      → HasTable d'
  once-HasTable (file, err e) d d' h k = absurd (ground arith)
  once-HasTable (file, ok sql) d d' h k = ground arith

  -- A script that is in the table of `d`, with a text.
  abbrev IsApplied : MigrationDb S → File → Type 0
  IsApplied d (file, err e) = ⊥
  IsApplied d (file, ok sql) = any (text_eq (version_of file)) (seen d) ≡ true

  applied_once : (f : File) (d : MigrationDb S) → IsApplied d f → once_file apply_sql f d ≡ some d
  applied_once (file, err e) d h = absurd h
  applied_once (file, ok sql) d h = rw h refl

  any-append :
      (v u : Text) (vs : List Text)
      → any (text_eq v) vs ≡ true
      → any (text_eq v) (vs ++ u ∷ []) ≡ true
  any-append v u [] h = absurd (ground arith)
  any-append v u (x ∷ vs) h = ground (arith, any-append v u vs)

  any_last : (v : Text) (vs : List Text) → any (text_eq v) (vs ++ v ∷ []) ≡ true
  any_last v [] = ground (arith, text_eq_refl v)
  any_last v (x ∷ vs) = ground (arith, any_last v vs)

  once_cases :
      (v sql : Text) (d d' : MigrationDb S)
      → once apply_sql v sql d ≡ some d'
      → ((any (text_eq v) (seen d) ≡ true) × (d' ≡ d)) ⊎ (seen d' ≡ seen d ++ v ∷ [])
  once_cases v sql d d' k = elim (Bool-cases (any (text_eq v) (seen d))) [
    | inl a ↦ inl (a, ground arith)
    | inr a ↦ elim (Option-cases (apply_sql sql d.schema)) [
      | inl b ↦ absurd (ground arith)
      | inr (s, b) ↦ inr (ground arith)
    ]
  ]

  once_applies :
      (f : File) (d d' : MigrationDb S) → once_file apply_sql f d ≡ some d' → IsApplied d' f
  once_applies (file, err e) d d' k = absurd (ground arith)
  once_applies (file, ok sql) d d' k = elim (once_cases (version_of file) sql d d' k) [
    | inl (a, e) ↦ subst (λ x. any (text_eq (version_of file)) (seen x) ≡ true) (sym e) a
    | inr e ↦
        subst (λ vs. any (text_eq (version_of file)) vs ≡ true) (sym e)
          (any_last (version_of file) (seen d))
  ]

  once-IsApplied :
      (f g : File) (d d' : MigrationDb S)
      → once_file apply_sql f d ≡ some d'
      → IsApplied d g
      → IsApplied d' g
  once-IsApplied f (file, err e) d d' k h = absurd h
  once-IsApplied (file', err e) (file, ok sql) d d' k h = absurd (ground arith)
  once-IsApplied (file', ok sql') (file, ok sql) d d' k h =
      elim (once_cases (version_of file') sql' d d' k) [
        | inl (a, e) ↦ subst (λ x. any (text_eq (version_of file)) (seen x) ≡ true) (sym e) h
        | inr e ↦
            subst (λ vs. any (text_eq (version_of file)) vs ≡ true) (sym e)
              (any-append (version_of file) (version_of file') (seen d) h)
      ]

  each_keeps :
      (files : List File) (g : File) (d d' : MigrationDb S)
      → each_once apply_sql files d ≡ some d'
      → IsApplied d g
      → IsApplied d' g
  each_keeps [] g d d' k h = subst (λ x. IsApplied x g) (some_inj d d' k) h
  each_keeps (f ∷ files) g d d' k h = elim (Option-cases (once_file apply_sql f d)) [
    | inl e ↦ absurd (ground arith)
    | inr (m, e) ↦ each_keeps files g m d' (ground arith) (once-IsApplied f g d m e h)
  ]

  each_applies :
      (files : List File) (d d' : MigrationDb S)
      → each_once apply_sql files d ≡ some d'
      → All (IsApplied d') files
  each_applies [] d d' k = tt
  each_applies (f ∷ files) d d' k = elim (Option-cases (once_file apply_sql f d)) [
    | inl e ↦ absurd (ground arith)
    | inr (m, e) ↦ (
      each_keeps files f m d' (ground arith) (once_applies f d m e),
      each_applies files m d' (ground arith),
    )
  ]

  applied_each :
      (files : List File) (d : MigrationDb S)
      → All (IsApplied d) files
      → each_once apply_sql files d ≡ some d
  applied_each [] d h = refl
  applied_each (f ∷ files) d h = rw (each_once, applied_once f d h.0) (applied_each files d h.1)

  -- Running through the same scripts again changes nothing.
  pub each_twice :
      (files : List File) (d d' : MigrationDb S)
      → each_once apply_sql files d ≡ some d'
      → each_once apply_sql files d' ≡ some d'
  each_twice files d d' k = applied_each files d' (each_applies files d d' k)

  -- A part of the scripts, then the others.
  pub each_once-append :
      (xs ys : List File) (d d' : MigrationDb S)
      → each_once apply_sql xs d ≡ some d'
      → each_once apply_sql (xs ++ ys) d ≡ each_once apply_sql ys d'
  each_once-append [] ys d d' k = ap (each_once apply_sql ys) (some_inj d d' k)
  each_once-append (x ∷ xs) ys d d' k = elim (Option-cases (once_file apply_sql x d)) [
    | inl e ↦ absurd (ground arith)
    | inr (m, e) ↦ rw (each_once, e) (each_once-append xs ys m d' (ground arith))
  ]

  -- A run that was broken off behind a part of the scripts does not change what all of them make.
  pub each_once_resumes :
      (xs ys : List File) (d d' : MigrationDb S)
      → each_once apply_sql xs d ≡ some d'
      → each_once apply_sql (xs ++ ys) d' ≡ each_once apply_sql (xs ++ ys) d
  each_once_resumes xs ys d d' k =
      each_once-append xs ys d' d' (each_twice xs d d' k) ∙ sym (each_once-append xs ys d d' k)
