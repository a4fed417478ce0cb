-- ===== src/Migrations/Resume.antt =====
-- Runs of `runMigrations` that are broken off, and a run that returns.
use mern_chat_app.Common.{
  Text, Bool, true, false, ◌≡◌, refl, Option, none, some, List, [], ◌∷◌, ◌++◌, arith, inl, inr,
  Bool-cases, Option-cases, ◌∙◌, ap, sym, subst,
}
use mern_chat_app.Database.{first_answer, connection_lost}
use mern_chat_app.Errors.{Result, ok, err, Thrown, Result-cases}
use mern_chat_app.Migrations.{
  MigrationDb, MigrationWorld, File, scripts, version_of, ensured, lasting, apply_migration,
  apply_files, run_migrations, migrate_all, statement, command, ensure_migrations_table, asked,
  proceed, Action, try_finally, unlock,
}
use mern_chat_app.Migrations.Reference.{once, each_once, each_once_resumes, HasTable, once-HasTable}
use mern_chat_app.Migrations.Applying.{apply_err, apply_ok}

module _ {S : Type 0} (apply_sql : Text → S → Option S) where
  -- How far a run through the scripts came.
  abbrev Reached : List File → MigrationDb S → MigrationDb S → Type 0
  Reached files d d' =
      (xs : List File) × (ys : List File) × (files ≡ xs ++ ys)
      × (each_once apply_sql xs d ≡ some d')

  abbrev Came : List File → MigrationDb S → Result (Unit {0}) × MigrationWorld S → Type 0
  Came files d r =
      Reached files d (lasting r.1)
      × HasTable (lasting r.1)
      × ((u : Unit {0})
          → r.0 ≡ ok u
          → (each_once apply_sql files d ≡ some r.1.db) × (r.1.saved ≡ none))

  nowhere :
      (files : List File) (d : MigrationDb S) (r : Result (Unit {0}) × MigrationWorld S)
      (e : Thrown)
      → HasTable d
      → r.0 ≡ err e
      → lasting r.1 ≡ d
      → Came files d r
  nowhere files d r e t k same = (
    ([], files, refl, ap some (sym same)),
    subst HasTable (sym same) t,
    λ u o. absurd (ground arith),
  )

  further :
      (file sql : Text) (files : List File) (d d1 : MigrationDb S)
      (r : Result (Unit {0}) × MigrationWorld S)
      → once apply_sql (version_of file) sql d ≡ some d1
      → Came files d1 r
      → Came ((file, ok sql) ∷ files) d r
  further file sql files d d1 r k ((xs, ys, same, reached), t, done) = (
    ((file, ok sql) ∷ xs, ys, ap (λ z. (file, ok sql) ∷ z) same, rw (each_once, k) reached),
    t,
    λ u o. rw (each_once, k) (done u o),
  )

  files_lem :
      (files : List File) (w : MigrationWorld S)
      → HasTable w.db
      → w.saved ≡ none
      → Came files w.db (apply_files apply_sql files w)
  unfolding apply_files
  files_lem [] w t s = (([], [], refl, ground arith), ground arith, λ u o. (refl, s))
  files_lem ((file, err e) ∷ files) w t s =
      nowhere ((file, err e) ∷ files) w.db (err e, w) e t refl (ground arith)
  files_lem ((file, ok sql) ∷ files) w t s =
      let m = apply_migration apply_sql (version_of file) sql w in
      elim (Result-cases m.0) [
        | inr (e, k) ↦
            subst (Came ((file, ok sql) ∷ files) w.db)
              (sym (
                ap
                  (λ r.
                    proceed {A = Unit {0}} {B = Unit {0}} r (λ _. apply_files apply_sql files) m.1)
                  k))
              (nowhere ((file, ok sql) ∷ files) w.db (err e, m.1) e t refl
                (apply_err apply_sql (version_of file) sql w e t s k))
        | inl (u, k) ↦
            let (step, closed) = apply_ok apply_sql (version_of file) sql w u t k in
            let rest = apply_files apply_sql files in
            subst (Came ((file, ok sql) ∷ files) w.db)
              (sym (ap (λ r. proceed {A = Unit {0}} {B = Unit {0}} r (λ _. rest) m.1) k))
              (further file sql files w.db m.1.db (rest m.1) step (
                files_lem files m.1 (once-HasTable apply_sql (file, ok sql) w.db m.1.db t step)
                  closed))
      ]

  -- A run, as it is seen from a later one.
  abbrev Ran : List File → MigrationDb S → Result (Unit {0}) × MigrationWorld S → Type 0
  Ran files d r =
      Reached files (ensured d) (ensured (lasting r.1))
      × ((u : Unit {0}) → r.0 ≡ ok u → each_once apply_sql files (ensured d) ≡ some (lasting r.1))

  ensured_same : (d : MigrationDb S) → HasTable d → ensured d ≡ d
  ensured_same d t = ground arith

  ensured-HasTable : (d : MigrationDb S) → HasTable (ensured d)
  ensured-HasTable d = elim (Option-cases d.migrations) [
    | inl e ↦ ground arith
    | inr (vs, e) ↦ ground arith
  ]

  Came-Ran :
      (files : List File) (d : MigrationDb S) (r : Result (Unit {0}) × MigrationWorld S)
      → Came files (ensured d) r
      → Ran files d r
  Came-Ran files d r ((xs, ys, same, reached), t, done) = (
    (xs, ys, same, reached ∙ ap some (sym (ensured_same (lasting r.1) t))),
    λ u o. let (every, closed) = done u o in every ∙ ground arith,
  )

  nothing-Ran :
      (files : List File) (d : MigrationDb S) (r : Result (Unit {0}) × MigrationWorld S)
      (e : Thrown)
      → r.0 ≡ err e
      → lasting r.1 ≡ d
      → Ran files d r
  nothing-Ran files d r e k same =
      (([], files, refl, ap (λ x. some (ensured x)) (sym same)), λ u o. absurd (ground arith))

  all_form :
      (files : List File) (w : MigrationWorld S)
      → first_answer w.answers ≡ true
      → migrate_all apply_sql (ok files) w
        ≡ apply_files apply_sql (scripts files) (record (asked w) { db = ensured w.db })
  unfolding migrate_all ensure_migrations_table statement
  all_form files w a = rw a refl

  all_lost :
      (files : List File) (w : MigrationWorld S)
      → first_answer w.answers ≡ false
      → migrate_all apply_sql (ok files) w ≡ (err connection_lost, asked w)
  unfolding migrate_all ensure_migrations_table statement
  all_lost files w a = rw a refl

  all_lem :
      (files : List File) (w : MigrationWorld S)
      → w.saved ≡ none
      → Ran (scripts files) w.db (migrate_all apply_sql (ok files) w)
  all_lem files w s = elim (Bool-cases (first_answer w.answers)) [
    | inr a ↦ subst (Ran (scripts files) w.db) (sym (all_lost files w a)) (
        nothing-Ran (scripts files) w.db (err connection_lost, asked w) connection_lost refl
          (ground arith))
    | inl a ↦
        let start = record (asked w) { db = ensured w.db } in
        subst (Ran (scripts files) w.db) (sym (all_form files w a)) (
          Came-Ran (scripts files) w.db (apply_files apply_sql (scripts files) start)
            (files_lem (scripts files) start (ensured-HasTable w.db) s))
  ]

  -- Behind the `finally`.
  finally_form :
      (m : Action S (Unit {0})) (w : MigrationWorld S)
      → (lasting (try_finally m unlock w).1 ≡ lasting (m w).1)
        × ((u : Unit {0}) → (try_finally m unlock w).0 ≡ ok u → (m w).0 ≡ ok u)
  unfolding command
  finally_form m w = elim (Bool-cases (first_answer (m w).1.answers)) [
    | inl a ↦ (ground arith, λ u o. ground arith)
    | inr a ↦ (ground arith, λ u o. absurd (ground arith))
  ]

  run_form :
      (files : List File) (w : MigrationWorld S)
      → first_answer w.answers ≡ true
      → first_answer (asked w).answers ≡ true
      → run_migrations apply_sql (ok files) w
        ≡ try_finally
            (migrate_all apply_sql (ok files))
            unlock
            (record (asked (asked w)) { locked = true })
  unfolding run_migrations command
  run_form files w a b = rw (a, b) refl

  run_lost :
      (files : List File) (w : MigrationWorld S)
      → first_answer w.answers ≡ false
      → run_migrations apply_sql (ok files) w ≡ (err connection_lost, asked w)
  unfolding run_migrations command
  run_lost files w a = rw a refl

  run_unlocked :
      (files : List File) (w : MigrationWorld S)
      → first_answer w.answers ≡ true
      → first_answer (asked w).answers ≡ false
      → run_migrations apply_sql (ok files) w ≡ (err connection_lost, asked (asked w))
  unfolding run_migrations command
  run_unlocked files w a b = rw (a, b) refl

  moved-Ran :
      (files : List File) (d : MigrationDb S) (r r' : Result (Unit {0}) × MigrationWorld S)
      → lasting r'.1 ≡ lasting r.1
      → ((u : Unit {0}) → r'.0 ≡ ok u → r.0 ≡ ok u)
      → Ran files d r
      → Ran files d r'
  moved-Ran files d r r' same passed ((xs, ys, e, reached), done) = (
    (xs, ys, e, reached ∙ ap (λ x. some (ensured x)) (sym same)),
    λ u o. done u (passed u o) ∙ ap some (sym same),
  )

  pub run_lem :
      (files : List File) (w : MigrationWorld S)
      → w.saved ≡ none
      → Ran (scripts files) w.db (run_migrations apply_sql (ok files) w)
  run_lem files w s = elim (Bool-cases (first_answer w.answers)) [
    | inr a ↦ subst (Ran (scripts files) w.db) (sym (run_lost files w a)) (
        nothing-Ran (scripts files) w.db (err connection_lost, asked w) connection_lost refl
          (ground arith))
    | inl a ↦ elim (Bool-cases (first_answer (asked w).answers)) [
      | inr b ↦ subst (Ran (scripts files) w.db) (sym (run_unlocked files w a b)) (
          nothing-Ran (scripts files) w.db (err connection_lost, asked (asked w)) connection_lost
            refl (ground arith))
      | inl b ↦
          let v = record (asked (asked w)) { locked = true } in
          let m = migrate_all apply_sql (ok files) in
          let (same, passed) = finally_form m v in
          subst (Ran (scripts files) w.db) (sym (run_form files w a b)) (
            moved-Ran (scripts files) w.db (m v) (try_finally m unlock v) same passed
              (all_lem files v s))
    ]
  ]

-- A run on a connection of its own, with what it finds of the database; `answers` says where it breaks.
abbrev pub start : {S : Type 0} → List Bool → MigrationDb S → MigrationWorld S
start answers d = record { db = d; saved = none; answers = answers; locked = false }

-- What lasts of a run, and of several, one after the other.
abbrev pub attempt :
    {S : Type 0} → (Text → S → Option S) → List File → List Bool → MigrationDb S → MigrationDb S
attempt apply_sql files answers d =
    lasting (run_migrations apply_sql (ok files) (start answers d)).1

abbrev pub attempts :
    {S : Type 0}
    → (Text → S → Option S)
    → List File
    → List (List Bool)
    → MigrationDb S
    → MigrationDb S
attempts apply_sql files [] d = d
attempts apply_sql files (answers ∷ runs) d =
    attempts apply_sql files runs (attempt apply_sql files answers d)

module _ {S : Type 0} (apply_sql : Text → S → Option S) (files : List File) where
  attempt_same :
      (answers : List Bool) (d : MigrationDb S)
      → each_once apply_sql (scripts files) (ensured (attempt apply_sql files answers d))
        ≡ each_once apply_sql (scripts files) (ensured d)
  attempt_same answers d =
      let ((xs, ys, e, reached), done) = run_lem apply_sql files (start answers d) refl in
      subst
        (λ fs.
          each_once apply_sql fs (ensured (attempt apply_sql files answers d))
          ≡ each_once apply_sql fs (ensured d))
        (sym e)
        (each_once_resumes apply_sql xs ys (ensured d) (ensured (attempt apply_sql files answers d))
          reached)

  attempts_same :
      (runs : List (List Bool)) (d : MigrationDb S)
      → each_once apply_sql (scripts files) (ensured (attempts apply_sql files runs d))
        ≡ each_once apply_sql (scripts files) (ensured d)
  attempts_same [] d = refl
  attempts_same (answers ∷ runs) d =
      attempts_same runs (attempt apply_sql files answers d) ∙ attempt_same answers d

  -- However many runs of the migrations came before, each broken off at any query or not at all: a run that
  -- returns leaves, in what lasts of the database, exactly what applying each script of the directory once,
  -- in the order of their names, makes of the database before all runs; the scripts whose version was in
  -- its table are passed over.
  pub run_resumes :
      (runs : List (List Bool)) (answers : List Bool) (d : MigrationDb S)
      → (run_migrations apply_sql (ok files) (start answers (attempts apply_sql files runs d))).0
        ≡ ok tt
      → each_once apply_sql (scripts files) (ensured d)
        ≡ some (attempt apply_sql files answers (attempts apply_sql files runs d))
  run_resumes runs answers d h =
      let (reached, done) =
        run_lem apply_sql files (start answers (attempts apply_sql files runs d)) refl in
      sym (attempts_same runs d) ∙ done tt h
