-- ===== src/UserService/Accounts.antt =====
-- What a registration is good for.
use mern_chat_app.Common.{
  ◌≡◌, Text, arith, ◌<◌, length, true, some, Bool, List, none, head?, false, Option, ◌==◌, ◌++◌,
  text_eq, ◌||◌, ◌∷◌, Option-cases, Bool-cases, ltb, [], inl, inr, refl, ap, ◌∙◌, text_eq_refl, sym,
}
use mern_chat_app.Database.{Runtime, World, User, first_answer, Exec, ◌>>=◌}
use mern_chat_app.UserService.{
  Crypto, RegisterUserInput, register_user, authenticate_user, register_new, is_rejected,
  normalize_email, checked,
}
use mern_chat_app.Js.Trim.{trim}
use mern_chat_app.Errors.{ok}
use mern_chat_app.Users.{find_user_by_normalized_email, create_user, map_user, new_user}
use mern_chat_app.Common.Sql.{select}
use mern_chat_app.Validation.{max_email_length, max_password_length}
use mern_chat_app.Database.Transactions.{bind-eq-ok}

head-select-append :
    {A : Type 0} (p : A → Bool) (xs : List A) (a : A)
    → head? (select p xs) ≡ none
    → p a ≡ true
    → head? (select p (xs ++ a ∷ [])) ≡ some a
head-select-append p [] a h k = ground arith
head-select-append p (x ∷ xs) a h k = ground (arith, head-select-append p xs a)

-- The row that a registration appends.
register_new_lem :
    (rt : Runtime) (k : Crypto) (input : RegisterUserInput) (o : Option User) (w : World) (u : User)
    → (register_new rt k input o w).0 ≡ ok u
    → (o ≡ none)
      × (row : User) × (u ≡ map_user rt row)
      × (row.email ≡ normalize_email k input.email)
      × (row.password_hash ≡ k.hash input.password)
      × ((register_new rt k input o w).1.db.users ≡ w.db.users ++ row ∷ [])
unfolding register_new create_user
register_new_lem rt k input (some x) w u h = absurd (ground arith)
register_new_lem rt k input none w u h = (
  refl,
  new_user rt (rt.random_uuid w.drawn) (trim input.fullname) (normalize_email k input.email)
      (k.hash input.password),
  ground arith,
  refl,
  refl,
  ground arith,
)

find_none :
    (rt : Runtime) (email : Text) (w : World)
    → (find_user_by_normalized_email rt email w).0 ≡ ok none
    → (head? (select (λ x. text_eq x.email email) w.db.users) ≡ none)
      × ((find_user_by_normalized_email rt email w).1.db ≡ w.db)
unfolding find_user_by_normalized_email
find_none rt email w h =
    elim (Option-cases (head? (select (λ x. text_eq x.email email) w.db.users))) [
      | inl e ↦ (e, ground arith)
      | inr (x, e) ↦ absurd (ground arith)
    ]

find_some :
    (rt : Runtime) (email : Text) (v : World) (row : User)
    → head? (select (λ x. text_eq x.email email) v.db.users) ≡ some row
    → first_answer v.answers ≡ true
    → (find_user_by_normalized_email rt email v).0 ≡ ok (some (map_user rt row))
unfolding find_user_by_normalized_email
find_some rt email v row h answers = ground arith

-- A registration that returned: its guards, and the table behind it.
register_lem :
    (rt : Runtime) (k : Crypto) (input : RegisterUserInput) (w : World) (u : User)
    → (register_user rt k input w).0 ≡ ok u
    → (is_rejected input ≡ false)
      × (row : User) × (u ≡ map_user rt row)
      × (row.password_hash ≡ k.hash input.password)
      × (head? (
            select
              (λ x. text_eq x.email (normalize_email k input.email))
              (register_user rt k input w).1.db.users)
          ≡ some row)
unfolding register_user
register_lem rt k input w u h = elim (Bool-cases (is_rejected input)) [
  | inl e ↦ absurd (ground arith)
  | inr e ↦ elim (Bool-cases (text_eq input.password input.confirm_password)) [
    | inr e' ↦ absurd (ground arith)
    | inl e' ↦
        let email = normalize_email k input.email in
        let find = find_user_by_normalized_email rt email in
        let (o, h1, h2, same) = bind-eq-ok find (register_new rt k input) w u (rw (e, e') at h) in
        let (eo, row, eu, ee, ep, es) = register_new_lem rt k input o (find w).1 u h2 in
        let (empty_, kept) = find_none rt email w (h1 ∙ ap ok eo) in
        (
          e,
          row,
          eu,
          ep,
          rw (e, e')
              (ap (λ r. head? (select (λ x. text_eq x.email email) r.1.db.users)) same
                ∙ ap (λ t. head? (select (λ x. text_eq x.email email) t))
                    (es ∙ ap (λ d. d.users ++ row ∷ []) kept)
                ∙ head-select-append (λ x. text_eq x.email email) w.db.users row empty_
                    (ap (λ t. text_eq t email) ee ∙ text_eq_refl email)),
        )
  ]
]

guard_lem :
    (input : RegisterUserInput)
    → 0 < length (trim input.email)
    → is_rejected input ≡ false
    → (length (trim input.email) == 0
        || ltb max_email_length (length (trim input.email))
        || length input.password == 0
        || ltb max_password_length (length input.password))
      ≡ false
unfolding is_rejected
guard_lem input h g = ground arith

continued :
    {A B : Type 0} (m : Exec A) (f : A → Exec B) (w : World) (a : A) (b : B)
    → (m w).0 ≡ ok a
    → (f a (m w).1).0 ≡ ok b
    → ((m >>= f) w).0 ≡ ok b
continued m f w a b h g = ground arith

checked_lem :
    (k : Crypto) (password stored : Text) (u : User) (w : World)
    → stored ≡ k.hash password
    → u.password_hash ≡ stored
    → ((p : Text) → k.compare p (k.hash p) ≡ true)
    → (checked k password (some u) w).0 ≡ ok u
unfolding checked
checked_lem k password stored u w h g compares = rw (g, h, compares password) refl

-- If the hash of a password is accepted for it and the trimmed address is not empty: in the database
-- that a registration left, a login with its e-mail address and password that is answered returns the
-- user that the registration returned.
pub register-authenticate :
    (rt : Runtime) (k : Crypto) (input : RegisterUserInput) (w v : World) (u : User)
    → ((p : Text) → k.compare p (k.hash p) ≡ true)
    → 0 < length (trim input.email)
    → (register_user rt k input w).0 ≡ ok u
    → v.db ≡ (register_user rt k input w).1.db
    → first_answer v.answers ≡ true
    → (authenticate_user rt k input.email input.password v).0 ≡ ok u
unfolding authenticate_user
register-authenticate rt k input w v u compares some_ h same answers =
    let (guards, row, eu, ep, found) = register_lem rt k input w u h in
    let f =
      find_some rt (normalize_email k input.email) v row
        (ap (λ d. head? (select (λ x. text_eq x.email (normalize_email k input.email)) d.users))
            same
          ∙ found)
        answers in
    rw (guard_lem input some_ guards) (
      continued (find_user_by_normalized_email rt (normalize_email k input.email))
        (checked k input.password) v (some (map_user rt row)) u f
        (checked_lem k input.password row.password_hash (map_user rt row)
            (find_user_by_normalized_email rt (normalize_email k input.email) v).1 ep refl compares
          ∙ ap ok (sym eu)))
