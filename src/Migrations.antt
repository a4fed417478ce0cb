-- ===== src/Migrations.antt =====
-- Backend/db/migrate.ts: `applyMigration` and `runMigrations`, over one connection to a database of which
-- a script sees the schema `S`. What PostgreSQL does with a script is the parameter `apply_sql`: the schema
-- behind it, or `none` if it fails; a script has no transaction control of its own. What `readdir` and
-- `readFile` give is a `Disk`. The release of the connection is left out.
pub mod Reference
pub mod Applying
pub mod Resume
pub mod Tests
use mern_chat_app.Common.{
  Text, codes, text_eq, text_lt, any, Bool, true, false, not, ◌||◌, if◌then◌else◌, Option, none,
  some, List, [], ◌∷◌, ◌++◌,
}
use mern_chat_app.Common.Sql.{select, order_by}
use mern_chat_app.Database.{first_answer, other_answers, connection_lost}
use mern_chat_app.Errors.{Result, ok, err, Thrown, pg}

-- The rows of `schema_migrations`, or `none` if there is no such table, and the rest of the database.
pub record MigrationDb (S : Type 0) : Type 0 where
  pub migrations : Option (List Text)
  pub schema : S

-- `saved`, `answers` as in Database; `locked` if the connection holds the advisory lock.
pub record MigrationWorld (S : Type 0) : Type 0 where
  pub db : MigrationDb S
  pub saved : Option (MigrationDb S)
  pub answers : List Bool
  pub locked : Bool

-- A file's name, and its text.
abbrev pub File : Type 0
File = Text × Result Text

abbrev pub Disk : Type 0
Disk = Result (List File)

abbrev pub lasting : {S : Type 0} → MigrationWorld S → MigrationDb S
lasting w = elim w.saved [ none ↦ w.db | some d ↦ d ]

abbrev pub Action : Type 0 → Type 0 → Type 0
Action S A = MigrationWorld S → Result A × MigrationWorld S

abbrev pub proceed : {S A B : Type 0} → Result A → (A → Action S B) → Action S B
proceed (ok a) f w = f a w
proceed (err e) f w = (err e, w)

infixl 5 ◌>>=◌ ◌>>◌
abbrev pub ◌>>=◌ : {S A B : Type 0} → Action S A → (A → Action S B) → Action S B
◌>>=◌ m f w = let (r, w') = m w in proceed r f w'

abbrev pub ◌>>◌ : {S B : Type 0} → Action S (Unit {0}) → Action S B → Action S B
m >> k = m >>= λ _. k

abbrev pub give : {S A : Type 0} → Result A → Action S A
give r w = (r, w)

abbrev pub asked : {S : Type 0} → MigrationWorld S → MigrationWorld S
asked w = record w { answers = other_answers w.answers }

abbrev pub settled :
    {S A : Type 0} → Result (A × MigrationDb S) → MigrationWorld S → Result A × MigrationWorld S
settled (ok (a, d)) w = (ok a, record w { db = d })
settled (err e) w = (err e, w)

-- One statement on the tables, and one that is always right if it is answered.
unfoldable pub statement :
    {S A : Type 0} → (MigrationDb S → Result (A × MigrationDb S)) → Action S A
statement q w =
    if first_answer w.answers then settled (q w.db) (asked w) else (err connection_lost, asked w)

unfoldable pub command : {S : Type 0} → (MigrationWorld S → MigrationWorld S) → Action S (Unit {0})
command f w =
    if first_answer w.answers then (ok tt, f (asked w)) else (err connection_lost, asked w)

abbrev pub begin : {S : Type 0} → Action S (Unit {0})
begin = command λ w. record w { saved = some w.db }

abbrev pub commit : {S : Type 0} → Action S (Unit {0})
commit = command λ w. record w { saved = none }

abbrev pub rollback : {S : Type 0} → Action S (Unit {0})
rollback = command λ w. record w { db = lasting w; saved = none }

-- CREATE TABLE IF NOT EXISTS.
abbrev pub ensured : {S : Type 0} → MigrationDb S → MigrationDb S
ensured d = record d { migrations = elim d.migrations [ none ↦ some [] | some vs ↦ some vs ] }

unfoldable pub ensure_migrations_table : {S : Type 0} → Action S (Unit {0})
unfolding statement
ensure_migrations_table = statement λ d. ok (tt, ensured d)

abbrev pub undefined_table : Thrown
undefined_table = pg (codes "42P01")

-- SELECT 1 ... WHERE version = $1: whether there is such a row.
abbrev pub select_version : {S : Type 0} → Text → MigrationDb S → Result (Bool × MigrationDb S)
select_version version d = elim d.migrations [
  | none ↦ err undefined_table
  | some vs ↦ ok (any (text_eq version) vs, d)
]

abbrev pub execute :
    {S : Type 0} → (Text → S → Option S) → Text → MigrationDb S → Result (Unit {0} × MigrationDb S)
execute apply_sql sql d = elim (apply_sql sql d.schema) [
  | none ↦ err (pg (codes "42601"))
  | some s ↦ ok (tt, record d { schema = s })
]

-- INSERT, with the primary key.
abbrev pub insert_version : {S : Type 0} → Text → MigrationDb S → Result (Unit {0} × MigrationDb S)
insert_version version d = elim d.migrations [
  | none ↦ err undefined_table
  | some vs ↦
      if any (text_eq version) vs
      then err (pg (codes "23505"))
      else ok (tt, record d { migrations = some (vs ++ version ∷ []) })
]

-- Behind the SELECT.
unfoldable pub migrate_unless :
    {S : Type 0} → (Text → S → Option S) → Text → Text → Bool → Action S (Unit {0})
unfolding statement command
migrate_unless apply_sql version sql true = commit
migrate_unless apply_sql version sql false =
    statement (execute apply_sql sql) >> (statement (insert_version version) >> commit)

-- The `catch`: ROLLBACK, then the error again.
abbrev pub rolled_back : {S : Type 0} → Result (Unit {0}) → Action S (Unit {0})
rolled_back (ok u) w = (ok u, w)
rolled_back (err e) w = (rollback >> give (err e)) w

unfoldable pub try_migration :
    {S : Type 0} → (Text → S → Option S) → Text → Text → Action S (Unit {0})
unfolding statement migrate_unless
try_migration apply_sql version sql w =
    let (r, w') = (statement (select_version version) >>= migrate_unless apply_sql version sql) w in
    rolled_back r w'

-- BEGIN stands before the `try`.
unfoldable pub apply_migration :
    {S : Type 0} → (Text → S → Option S) → Text → Text → Action S (Unit {0})
unfolding command try_migration
apply_migration apply_sql version sql = begin >> try_migration apply_sql version sql

-- `endsWith`.
abbrev pub ends_with : Text → Text → Bool
ends_with suffix [] = text_eq [] suffix
ends_with suffix (c ∷ s) = let rest = ends_with suffix s in text_eq (c ∷ s) suffix || rest

-- `file.replace(/\.sql$/, "")`.
abbrev pub version_of : Text → Text
version_of [] = []
version_of (c ∷ s) =
    let rest = version_of s in if text_eq (c ∷ s) (codes ".sql") then [] else c ∷ rest

-- The files of the directory that are scripts, sorted by name.
abbrev pub scripts : List File → List File
scripts files =
    order_by (λ a b. not (text_lt b.0 a.0)) (select (λ f. ends_with (codes ".sql") f.0) files)

unfoldable pub apply_files : {S : Type 0} → (Text → S → Option S) → List File → Action S (Unit {0})
unfolding apply_migration
apply_files apply_sql [] = give (ok tt)
apply_files apply_sql ((file, text) ∷ files) = give text >>= λ sql.
    apply_migration apply_sql (version_of file) sql >> apply_files apply_sql files

-- `try { m } finally { fin }`: an error of `fin` is thrown in place of what `m` did.
abbrev pub replaced : {A : Type 0} → Result A → Result (Unit {0}) → Result A
replaced r (ok u) = r
replaced r (err e) = err e

abbrev pub try_finally : {S A : Type 0} → Action S A → Action S (Unit {0}) → Action S A
try_finally m fin w = let (r, w') = m w in let (r', last) = fin w' in (replaced r r', last)

-- The inner `try`.
unfoldable pub migrate_all : {S : Type 0} → (Text → S → Option S) → Disk → Action S (Unit {0})
unfolding ensure_migrations_table apply_files
migrate_all apply_sql disk =
    ensure_migrations_table >> (give disk >>= λ files. apply_files apply_sql (scripts files))

abbrev pub unlock : {S : Type 0} → Action S (Unit {0})
unlock = command λ w. record w { locked = false }

-- The first command is `pool.connect()`.
unfoldable pub run_migrations : {S : Type 0} → (Text → S → Option S) → Disk → Action S (Unit {0})
unfolding command migrate_all
run_migrations apply_sql disk =
    command (λ w. w)
    >> (command (λ w. record w { locked = true })
        >> try_finally (migrate_all apply_sql disk) unlock)
