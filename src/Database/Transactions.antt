-- ===== src/Database/Transactions.antt =====
-- What a transaction leaves behind, whatever queries fail.
use mern_chat_app.Common.{◌≡◌, none, arith, some, refl, ◌⊎◌}
use mern_chat_app.Database.{
  World, Db, Exec, transaction, durable, asked, query, random_uuid, Runtime, continue, ◌>>=◌,
  connection_lost,
}
use mern_chat_app.Errors.{Thrown, ok, err, Result, Result-cases}

-- A body that runs inside one transaction: it neither begins, commits nor rolls back.
abbrev pub IsInside : {A : Type 0} → Exec A → Type 0
IsInside body = (w : World) → (body w).1.saved ≡ w.saved

-- The world behind BEGIN.
abbrev pub begun : World → World
begun w = record (asked w) { saved = some w.db }

-- A transaction that throws, at whatever statement, leaves the lasting database as it was, if it is not
-- begun inside another one and its body neither begins, commits nor rolls back.
pub transaction_atomic :
    {A : Type 0} (body : Exec A) (w : World) (e : Thrown)
    → IsInside body
    → w.saved ≡ none
    → (transaction body w).0 ≡ err e
    → durable (transaction body w).1 ≡ w.db
unfolding transaction
transaction_atomic body w e inside closed h = ground (arith, inside (begun w))

-- A transaction that returns has committed what its body did from BEGIN on, returns what the body
-- returned, and is closed.
pub transaction_commits :
    {A : Type 0} (body : Exec A) (w : World) (a : A)
    → (transaction body w).0 ≡ ok a
    → ((body (begun w)).0 ≡ ok a)
      × (durable (transaction body w).1 ≡ (body (begun w)).1.db)
      × ((transaction body w).1.saved ≡ none)
unfolding transaction
transaction_commits body w a h = ground arith

-- A transaction that does not end in a lost connection is closed. If it throws, its connection sees the
-- database as it was: the ROLLBACK was answered.
pub transaction_closes :
    {A : Type 0} (body : Exec A) (w : World)
    → IsInside body
    → ¬ ((transaction body w).0 ≡ err connection_lost)
    → ((transaction body w).1.saved ≡ none)
      × (((a : A) × ((transaction body w).0 ≡ ok a)) ⊎ ((transaction body w).1.db ≡ w.db))
unfolding transaction
transaction_closes {A} body w inside kept =
    ground (arith, inside (begun w), Result-cases (body (begun w)).0)

-- What is built from statements runs inside its transaction.
pub query-IsInside : {A : Type 0} (q : Db → Result (A × Db)) → IsInside (query q)
unfolding query
query-IsInside q w = ground arith

pub random-IsInside : (rt : Runtime) → IsInside (random_uuid rt)
unfolding random_uuid
random-IsInside rt w = refl

pub bind-IsInside :
    {A B : Type 0} (m : Exec A) (f : A → Exec B)
    → IsInside m
    → ((a : A) → IsInside (f a))
    → IsInside (m >>= f)
bind-IsInside {A} m f h k w = ground (arith, h w, continued (m w).0)
  where
    continued : (r : Result A) → (continue r f (m w).1).1.saved ≡ (m w).1.saved
    continued (ok a) = k a (m w).1
    continued (err e) = refl

-- Two actions in a row that return: the first one returned, and the second one behind it.
pub bind-eq-ok :
    {A B : Type 0} (m : Exec A) (f : A → Exec B) (w : World) (b : B)
    → ((m >>= f) w).0 ≡ ok b
    → (a : A) × ((m w).0 ≡ ok a) × ((f a (m w).1).0 ≡ ok b) × ((m >>= f) w ≡ f a (m w).1)
bind-eq-ok m f w b h = ground arith

-- A statement that is answered returns what it computes, on the database that it finds.
pub query-eq-ok :
    {A : Type 0} (q : Db → Result (A × Db)) (w : World) (a : A)
    → (query q w).0 ≡ ok a
    → (d : Db) × (q w.db ≡ ok (a, d)) × ((query q w).1.db ≡ d) × ((query q w).1.drawn ≡ w.drawn)
unfolding query
query-eq-ok q w a h = ground arith
