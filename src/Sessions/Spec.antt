-- ===== src/Sessions/Spec.antt =====
-- The sessions as an abstract specification has them: a function from the hash of a refresh token to
-- the user and the time of its expiry; and the calls of the repository against it.
use mern_chat_app.Common.{
  ℕ, Text, text_eq, ◌≡◌, refl, any, Bool, false, ltb, ◌==◌, if◌then◌else◌, Option, none, some, List,
  [], ◌∷◌, ◌++◌, arith, eq_of_text_eq, ◌∙◌, text_eq_refl, text_eq-sym, head?,
}
use mern_chat_app.Common.Sql.{update, delete, select}
use mern_chat_app.Database.{World, Runtime, Session}
use mern_chat_app.Errors.{Result, ok, err}
use mern_chat_app.Sessions.{
  create_session, find_active_session_by_token_hash, revoke_session_by_token_hash,
  revoke_all_sessions_for_user, used, is_active_hash, use_session, mapped_session,
}

-- Who a refresh token is for, and until when.
abbrev pub Grant : Type 0
Grant = ℕ × ℕ

abbrev pub Spec : Type 0
Spec = Text → Option Grant

abbrev pub grant : Text → Grant → Spec → Spec
grant h g f x = if text_eq h x then some g else f x

abbrev pub revoke : Text → Spec → Spec
revoke h f x = if text_eq h x then none else f x

abbrev pub other_user : ℕ → Option Grant → Option Grant
other_user u none = none
other_user u (some (v, e)) = if v == u then none else some (v, e)

abbrev pub revoke_user : ℕ → Spec → Spec
revoke_user u f x = other_user u (f x)

-- The user of a grant that has not expired.
abbrev pub holder : ℕ → Option Grant → Option ℕ
holder now none = none
holder now (some (u, e)) = if ltb now e then some u else none

-- The four calls of the repository that change the table.
pub data SessionCall : Type 0 where
  creates : (user_id token_hash : Text) (expires_at last_used_at : ℕ) → SessionCall
  uses : (token_hash : Text) (now : ℕ) → SessionCall
  revokes : (token_hash : Text) → SessionCall
  revokes_all : (user_id : Text) → SessionCall

-- A call fails, or returns, with the user of the session that it found.
pub data Reply : Type 0 where
  failed : Reply
  returned : Option ℕ → Reply

abbrev pub outcome : {A : Type 0} → (A → Option ℕ) → Result A → Reply
outcome f (ok a) = returned (f a)
outcome f (err e) = failed

abbrev pub user_of : Option Session → Option ℕ
user_of none = none
user_of (some s) = some s.user_id

unfoldable pub perform : Runtime → SessionCall → World → Reply × World
perform rt (creates u h e l) w =
    let (r, w') = create_session rt u h e l w in (outcome (λ s. none) r, w')
perform rt (uses h now) w =
    let (r, w') = find_active_session_by_token_hash rt h now w in (outcome user_of r, w')
perform rt (revokes h) w =
    let (r, w') = revoke_session_by_token_hash h w in (outcome (λ u. none) r, w')
perform rt (revokes_all u) w =
    let (r, w') = revoke_all_sessions_for_user rt u w in (outcome (λ u. none) r, w')

abbrev pub Trace : Type 0
Trace = List (SessionCall × Reply)

unfoldable pub perform_all : Runtime → List SessionCall → World → Trace × World
perform_all rt [] w = ([], w)
perform_all rt (c ∷ calls) w =
    let (o, v) = perform rt c w in
    let (rest, last) = perform_all rt calls v in ((c, o) ∷ rest, last)

-- What a call that returned does to the specification.
abbrev pub spec_call : Runtime → SessionCall → Spec → Spec
spec_call rt (creates u h e l) f = elim (rt.read_uuid u) [ none ↦ f | some n ↦ grant h (n, e) f ]
spec_call rt (uses h now) f = f
spec_call rt (revokes h) f = revoke h f
spec_call rt (revokes_all u) f = elim (rt.read_uuid u) [ none ↦ f | some n ↦ revoke_user n f ]

-- What it answers.
abbrev pub spec_answer : SessionCall → Spec → Option ℕ
spec_answer (uses h now) f = holder now (f h)
spec_answer _ f = none

abbrev pub spec_outcome : Runtime → SessionCall → Reply → Spec → Spec
spec_outcome rt c failed f = f
spec_outcome rt c (returned a) f = spec_call rt c f

-- The specification after a trace, and the answers of a trace.
abbrev pub replay : Runtime → Trace → Spec → Spec
replay rt [] f = f
replay rt ((c, o) ∷ trace) f = replay rt trace (spec_outcome rt c o f)

abbrev pub Answers : SessionCall → Reply → Spec → Type 0
Answers c failed f = Unit
Answers c (returned a) f = a ≡ spec_answer c f

abbrev pub Agrees : Runtime → Trace → Spec → Type 0
Agrees rt [] f = Unit
Agrees rt ((c, o) ∷ trace) f = Answers c o f × Agrees rt trace (spec_outcome rt c o f)

-- The specification that a table stands for.
abbrev pub view : List Session → Spec
view [] h = none
view (s ∷ rows) h =
    let rest = view rows h in
    if text_eq s.token_hash h then some (s.user_id, s.expires_at) else rest

-- No two sessions have one hash.
abbrev pub IsUniqueHash : List Session → Type 0
IsUniqueHash [] = Unit
IsUniqueHash (s ∷ rows) = (view rows s.token_hash ≡ none) × IsUniqueHash rows

pub view-none :
    (h : Text) (rows : List Session)
    → any (λ s. text_eq s.token_hash h) rows ≡ false
    → view rows h ≡ none
view-none h [] e = refl
view-none h (s ∷ rows) e = ground (arith, view-none h rows)

pub view-append :
    (s : Session) (rows : List Session) (h : Text)
    → view rows s.token_hash ≡ none
    → view (rows ++ s ∷ []) h ≡ grant s.token_hash (s.user_id, s.expires_at) (view rows) h
view-append s [] h e = refl
view-append s (r ∷ rows) h e = ground (
  arith,
  view-append s rows h,
  eq_of_text_eq r.token_hash h,
  eq_of_text_eq s.token_hash h,
  text_eq_refl h,
)

pub append-IsUniqueHash :
    (s : Session) (rows : List Session)
    → view rows s.token_hash ≡ none
    → IsUniqueHash rows
    → IsUniqueHash (rows ++ s ∷ [])
append-IsUniqueHash s [] e u = (refl, tt)
append-IsUniqueHash s (r ∷ rows) e u = (
  view-append s rows r.token_hash (ground arith)
      ∙ ground (arith, text_eq-sym s.token_hash r.token_hash),
  append-IsUniqueHash s rows (ground arith) u.1,
)

pub view-used :
    (t : Text) (now : ℕ) (rows : List Session) (h : Text)
    → view (update (is_active_hash t now) (used now) rows) h ≡ view rows h
view-used t now [] h = refl
view-used t now (r ∷ rows) h = ground (arith, view-used t now rows h)

pub used-IsUniqueHash :
    (t : Text) (now : ℕ) (rows : List Session)
    → IsUniqueHash rows
    → IsUniqueHash (update (is_active_hash t now) (used now) rows)
used-IsUniqueHash t now [] u = tt
used-IsUniqueHash t now (r ∷ rows) u =
    ground (arith, view-used t now rows r.token_hash, used-IsUniqueHash t now rows)

pub view-delete_hash :
    (t : Text) (rows : List Session) (h : Text)
    → view (delete (λ s. text_eq s.token_hash t) rows) h ≡ revoke t (view rows) h
view-delete_hash t [] h = ground arith
view-delete_hash t (r ∷ rows) h = ground (
  arith,
  view-delete_hash t rows h,
  eq_of_text_eq r.token_hash t,
  eq_of_text_eq r.token_hash h,
  eq_of_text_eq t h,
  text_eq_refl h,
  text_eq-sym t h,
)

pub view-delete_user :
    (u : ℕ) (rows : List Session) (h : Text)
    → IsUniqueHash rows
    → view (delete (λ s. s.user_id == u) rows) h ≡ other_user u (view rows h)
view-delete_user u [] h k = refl
view-delete_user u (r ∷ rows) h k =
    ground (arith, view-delete_user u rows h k.1, eq_of_text_eq r.token_hash h, k.0)

pub delete-view-none :
    (p : Session → Bool) (rows : List Session) (h : Text)
    → view rows h ≡ none
    → view (delete p rows) h ≡ none
delete-view-none p [] h e = refl
delete-view-none p (r ∷ rows) h e = ground (arith, delete-view-none p rows h)

pub delete-IsUniqueHash :
    (p : Session → Bool) (rows : List Session) → IsUniqueHash rows → IsUniqueHash (delete p rows)
delete-IsUniqueHash p [] u = tt
delete-IsUniqueHash p (r ∷ rows) u =
    ground (arith, delete-view-none p rows r.token_hash u.0, delete-IsUniqueHash p rows u.1)

-- The session that is found, against the specification.
pub active_none :
    (h : Text) (now : ℕ) (rows : List Session)
    → view rows h ≡ none
    → head? (select (is_active_hash h now) rows) ≡ none
active_none h now [] e = refl
active_none h now (r ∷ rows) e = ground (arith, active_none h now rows)

pub active_lem :
    (rt : Runtime) (h : Text) (now : ℕ) (rows : List Session)
    → IsUniqueHash rows
    → user_of (mapped_session rt (use_session h now rows).0) ≡ holder now (view rows h)
active_lem rt h now [] u = refl
active_lem rt h now (r ∷ rows) u =
    ground (
      arith,
      active_lem rt h now rows u.1,
      active_none h now rows,
      eq_of_text_eq r.token_hash h,
      u.0,
    )
