-- ===== src/Users.antt =====
-- Backend/repositories/postgres/user.repository.ts, over the table `users`.
use mern_chat_app.Common.{
  ℕ, Text, codes, text_eq, any, not, ◌==◌, ◌&&◌, ◌||◌, ltb, if◌then◌else◌, Bool, Option, none, some,
  List, [], ◌∷◌, ◌++◌, map, head?,
}
use mern_chat_app.Common.Sql.{select, order_by}
use mern_chat_app.Database.{Db, User, Exec, Runtime, query, random_uuid, cast_uuid, ◌>>=◌}
use mern_chat_app.Errors.{Result, ok, err, pg}

-- `mapUser`: the dates go through `new Date(String(value))`.
abbrev pub map_user : Runtime → User → User
map_user rt row = record row {
  created_at = rt.row_date row.created_at;
  updated_at = rt.row_date row.updated_at;
}

abbrev pub new_user : Runtime → ℕ → Text → Text → Text → User
new_user rt id fullname email password_hash = record {
  id = id;
  fullname = fullname;
  email = email;
  password_hash = password_hash;
  created_at = rt.now;
  updated_at = rt.now;
}

-- INSERT, with the primary key and the unique e-mail address.
abbrev pub insert_user : Runtime → ℕ → Text → Text → Text → Db → Result (User × Db)
insert_user rt id fullname email password_hash db =
    if any (λ u. u.id == id) db.users || any (λ u. text_eq u.email email) db.users
    then err (pg (codes "23505"))
    else ok (
      map_user rt (new_user rt id fullname email password_hash),
      record db { users = db.users ++ new_user rt id fullname email password_hash ∷ [] },
    )

unfoldable pub create_user : Runtime → Text → Text → Text → Exec User
unfolding query random_uuid
create_user rt fullname email password_hash = do
  id ← random_uuid rt
  query (insert_user rt id fullname email password_hash)

abbrev mapped : Runtime → Option User → Option User
mapped rt none = none
mapped rt (some u) = some (map_user rt u)

unfoldable pub find_user_by_id : Runtime → Text → Exec (Option User)
unfolding query
find_user_by_id rt id = query λ db. elim (cast_uuid rt id) [
  | err e ↦ err e
  | ok n ↦ ok (mapped rt (head? (select (λ u. u.id == n) db.users)), db)
]

unfoldable pub find_user_by_normalized_email : Runtime → Text → Exec (Option User)
unfolding query
find_user_by_normalized_email rt email =
    query λ db. ok (mapped rt (head? (select (λ u. text_eq u.email email) db.users)), db)

-- ORDER BY created_at ASC, id ASC.
abbrev pub oldest_first : User → User → Bool
oldest_first u v =
    ltb u.created_at v.created_at || (u.created_at == v.created_at && not (ltb v.id u.id))

-- The id, the name and the e-mail address of a row.
pub record PublicUser : Type 0 where
  pub id : ℕ
  pub fullname : Text
  pub email : Text

abbrev pub public_user : User → PublicUser
public_user u = record { id = u.id; fullname = u.fullname; email = u.email }

unfoldable pub list_users_except : Runtime → Text → Exec (List PublicUser)
unfolding query
list_users_except rt user_id = query λ db. elim (cast_uuid rt user_id) [
  | err e ↦ err e
  | ok n ↦ ok (map public_user (order_by oldest_first (select (λ u. not (u.id == n)) db.users)), db)
]
