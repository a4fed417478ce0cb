-- ===== src/Migrations/Tests.antt =====
-- Two scripts, and a run that is broken off behind the first one.
use mern_chat_app.Common.{
  Text, codes, ◌≡◌, refl, Bool, true, false, Option, none, some, List, [], ◌∷◌,
}
use mern_chat_app.Errors.{ok}
use mern_chat_app.Migrations.{File, MigrationDb, scripts, ensured, run_migrations}
use mern_chat_app.Migrations.Reference.{each_once}
use mern_chat_app.Migrations.Resume.{attempt, attempts, run_resumes}

-- A schema that is the list of the scripts that ran.
abbrev log_sql : Text → List Text → Option (List Text)
log_sql sql s = some (sql ∷ s)

abbrev two_files : List File
two_files =
    (codes "2.sql", ok (codes "b")) ∷ (codes "notes", ok []) ∷ (codes "1.sql", ok (codes "a")) ∷ []

abbrev new_database : MigrationDb (List Text)
new_database = record { migrations = none; schema = [] }

-- The script of the second file is not answered.
abbrev broken : List Bool
broken = true ∷ true ∷ true ∷ true ∷ true ∷ true ∷ true ∷ true ∷ true ∷ true ∷ false ∷ []

broken_lem :
    attempt log_sql two_files broken new_database
    ≡ record { migrations = some (codes "1" ∷ []); schema = codes "a" ∷ [] }
unfolding run_migrations mern_chat_app.Migrations.command mern_chat_app.Migrations.statement
    mern_chat_app.Migrations.migrate_all mern_chat_app.Migrations.ensure_migrations_table
    mern_chat_app.Migrations.apply_files mern_chat_app.Migrations.apply_migration
    mern_chat_app.Migrations.try_migration mern_chat_app.Migrations.migrate_unless
broken_lem = refl

run_resumes_example :
    each_once log_sql (scripts two_files) (ensured new_database)
    ≡ some (attempt log_sql two_files [] (attempts log_sql two_files (broken ∷ []) new_database))
unfolding run_migrations mern_chat_app.Migrations.command mern_chat_app.Migrations.statement
    mern_chat_app.Migrations.migrate_all mern_chat_app.Migrations.ensure_migrations_table
    mern_chat_app.Migrations.apply_files mern_chat_app.Migrations.apply_migration
    mern_chat_app.Migrations.try_migration mern_chat_app.Migrations.migrate_unless
run_resumes_example = run_resumes log_sql two_files (broken ∷ []) [] new_database refl
