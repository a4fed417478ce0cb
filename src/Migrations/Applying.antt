-- ===== src/Migrations/Applying.antt =====
-- What `applyMigration` leaves, if it returns and if it throws.
use mern_chat_app.Common.{
  Text, text_eq, any, Bool, true, false, ◌≡◌, refl, Option, none, some, arith, inl, inr, Bool-cases,
  ◌∙◌, ap, sym, subst,
}
use mern_chat_app.Database.{first_answer, connection_lost}
use mern_chat_app.Errors.{Result, ok, err, Thrown}
use mern_chat_app.Migrations.{
  MigrationDb, MigrationWorld, lasting, apply_migration, try_migration, migrate_unless, statement,
  command, rolled_back, select_version, ◌>>=◌, asked,
}
use mern_chat_app.Migrations.Reference.{seen, once, HasTable}

module _ {S : Type 0} (apply_sql : Text → S → Option S) where
  -- Behind the SELECT, in the transaction that began at `d`.
  pub found_lem :
      (v sql : Text) (w : MigrationWorld S) (u : Unit {0})
      → any (text_eq v) (seen w.db) ≡ true
      → (migrate_unless apply_sql v sql true w).0 ≡ ok u
      → (once apply_sql v sql w.db ≡ some (migrate_unless apply_sql v sql true w).1.db)
        × ((migrate_unless apply_sql v sql true w).1.saved ≡ none)
  unfolding migrate_unless command
  found_lem v sql w u h k = (ground arith, ground arith)

  pub new_lem :
      (v sql : Text) (w : MigrationWorld S) (u : Unit {0})
      → HasTable w.db
      → any (text_eq v) (seen w.db) ≡ false
      → (migrate_unless apply_sql v sql false w).0 ≡ ok u
      → (once apply_sql v sql w.db ≡ some (migrate_unless apply_sql v sql false w).1.db)
        × ((migrate_unless apply_sql v sql false w).1.saved ≡ none)
  unfolding migrate_unless command statement
  new_lem v sql w u t h k = (ground arith, ground arith)

  pub branch_lem :
      (v sql : Text) (b : Bool) (w : MigrationWorld S) (u : Unit {0})
      → HasTable w.db
      → any (text_eq v) (seen w.db) ≡ b
      → (migrate_unless apply_sql v sql b w).0 ≡ ok u
      → (once apply_sql v sql w.db ≡ some (migrate_unless apply_sql v sql b w).1.db)
        × ((migrate_unless apply_sql v sql b w).1.saved ≡ none)
  branch_lem v sql true w u t h k = found_lem v sql w u h k
  branch_lem v sql false w u t h k = new_lem v sql w u t h k

  pub open_lem :
      (v sql : Text) (b : Bool) (w : MigrationWorld S) (e : Thrown)
      → (migrate_unless apply_sql v sql b w).0 ≡ err e
      → (migrate_unless apply_sql v sql b w).1.saved ≡ w.saved
  unfolding migrate_unless command statement
  open_lem v sql true w e k = ground arith
  open_lem v sql false w e k = ground arith

  pub rolled_lem :
      (d : MigrationDb S) (r : Result (Unit {0})) (w : MigrationWorld S) (e : Thrown)
      → ((x : Thrown) → r ≡ err x → lasting w ≡ d)
      → (rolled_back r w).0 ≡ err e
      → lasting (rolled_back r w).1 ≡ d
  unfolding command
  rolled_lem d (ok u) w e h k = absurd (ground arith)
  rolled_lem d (err x) w e h k = ground (arith, h x refl)

  pub bind_found :
      (v sql : Text) (w : MigrationWorld S)
      → HasTable w.db
      → first_answer w.answers ≡ true
      → (statement (select_version v) >>= migrate_unless apply_sql v sql) w
        ≡ migrate_unless apply_sql v sql (any (text_eq v) (seen w.db)) (asked w)
  unfolding statement
  bind_found v sql w t a = rw (a, t) refl

  pub bind_lost :
      (v sql : Text) (w : MigrationWorld S)
      → first_answer w.answers ≡ false
      → (statement (select_version v) >>= migrate_unless apply_sql v sql) w
        ≡ (err connection_lost, asked w)
  unfolding statement
  bind_lost v sql w a = rw a refl

  pub rolled_ok :
      (r : Result (Unit {0})) (w : MigrationWorld S) (u : Unit {0})
      → (rolled_back r w).0 ≡ ok u
      → (r ≡ ok u) × (rolled_back r w ≡ (r, w))
  unfolding command
  rolled_ok (ok x) w u k = (k, refl)
  rolled_ok (err e) w u k = absurd (ground arith)

  pub try_ok :
      (v sql : Text) (w : MigrationWorld S) (u : Unit {0})
      → HasTable w.db
      → (try_migration apply_sql v sql w).0 ≡ ok u
      → (once apply_sql v sql w.db ≡ some (try_migration apply_sql v sql w).1.db)
        × ((try_migration apply_sql v sql w).1.saved ≡ none)
  unfolding try_migration
  try_ok v sql w u t k =
      let body = (statement (select_version v) >>= migrate_unless apply_sql v sql) w in
      let (passed, same) = rolled_ok body.0 body.1 u k in
      subst (λ z. (once apply_sql v sql w.db ≡ some z.1.db) × (z.1.saved ≡ none)) (sym same)
        (elim (Bool-cases (first_answer w.answers)) [
          | inr a ↦ absurd (ground (arith, bind_lost v sql w a))
          | inl a ↦
              let form = bind_found v sql w t a in
              subst (λ z. (once apply_sql v sql w.db ≡ some z.1.db) × (z.1.saved ≡ none)) (sym form)
                (branch_lem v sql (any (text_eq v) (seen w.db)) (asked w) u t refl
                  (sym (ap (λ z. z.0) form) ∙ passed))
        ])

  pub try_err :
      (v sql : Text) (w : MigrationWorld S) (d : MigrationDb S) (e : Thrown)
      → HasTable w.db
      → w.saved ≡ some d
      → (try_migration apply_sql v sql w).0 ≡ err e
      → lasting (try_migration apply_sql v sql w).1 ≡ d
  unfolding try_migration
  try_err v sql w d e t s k =
      let body = (statement (select_version v) >>= migrate_unless apply_sql v sql) w in
      rolled_lem d body.0 body.1 e
        (λ x p. elim (Bool-cases (first_answer w.answers)) [
          | inr a ↦ ap (λ z. lasting z.1) (bind_lost v sql w a) ∙ ground arith
          | inl a ↦
              let form = bind_found v sql w t a in
              let b = any (text_eq v) (seen w.db) in
              ap (λ z. lasting z.1) form
              ∙ ground (arith, open_lem v sql b (asked w) x (sym (ap (λ z. z.0) form) ∙ p))
        ])
        k

  -- `applyMigration` that returns, and one that throws.
  pub apply_ok :
      (v sql : Text) (w : MigrationWorld S) (u : Unit {0})
      → HasTable w.db
      → (apply_migration apply_sql v sql w).0 ≡ ok u
      → (once apply_sql v sql w.db ≡ some (apply_migration apply_sql v sql w).1.db)
        × ((apply_migration apply_sql v sql w).1.saved ≡ none)
  unfolding apply_migration command
  apply_ok v sql w u t k = ground (arith, try_ok v sql (record (asked w) { saved = some w.db }) u t)

  pub apply_err :
      (v sql : Text) (w : MigrationWorld S) (e : Thrown)
      → HasTable w.db
      → w.saved ≡ none
      → (apply_migration apply_sql v sql w).0 ≡ err e
      → lasting (apply_migration apply_sql v sql w).1 ≡ w.db
  unfolding apply_migration command
  apply_err v sql w e t s k =
      ground (arith, try_err v sql (record (asked w) { saved = some w.db }) w.db e t refl)
