-- ===== src/Sessions/Refinement.antt =====
-- The calls of the session repository on the table, one by one and in sequence, against the
-- specification of Sessions/Spec.
use mern_chat_app.Common.{
  ℕ, Text, text_eq, ◌≡◌, refl, any, ◌==◌, List, [], ◌∷◌, ◌∙◌, Bool-cases, inl, Option-cases, inr,
  ap, subst,
}
use mathlib.Core.Path.{fun_ext}
use mern_chat_app.Database.{World, Runtime, Session, Exec, first_answer}
use mern_chat_app.Sessions.{
  create_session, find_active_session_by_token_hash, revoke_session_by_token_hash,
  revoke_all_sessions_for_user, new_session,
}
use mern_chat_app.Conversations.{has_user}
use mern_chat_app.Sessions.Spec.{
  SessionCall, IsUniqueHash, perform_all, perform, view, spec_outcome, creates, uses, revokes,
  revokes_all, replay, Answers, spec_call, view-used, view-delete_hash, Agrees, view-append,
  active_lem, delete-IsUniqueHash, view-delete_user, view-none, used-IsUniqueHash,
  append-IsUniqueHash, Reply,
}

-- One call on the table, against the specification.
abbrev pub Refines : Runtime → SessionCall → Reply → List Session → List Session → Type 0
Refines rt c o rows after =
    (view after ≡ spec_outcome rt c o (view rows)) × Answers c o (view rows) × IsUniqueHash after

module _ (rt : Runtime) (w : World) (unique : IsUniqueHash w.db.sessions) where
  creates_lem :
      (u h : Text) (e l : ℕ)
      → Refines rt
          (creates u h e l)
          (perform rt (creates u h e l) w).0
          w.db.sessions
          (perform rt (creates u h e l) w).1.db.sessions
  unfolding perform create_session mern_chat_app.Database.query mern_chat_app.Database.random_uuid
  creates_lem u h e l = elim (Bool-cases (first_answer w.answers)) [
    | inl a ↦ elim (Option-cases (rt.read_uuid u)) [
      | inl c ↦ rw (a, c) (refl, tt, unique)
      | inr (n, c) ↦ elim (Bool-cases (any (λ s. s.id == rt.random_uuid w.drawn) w.db.sessions)) [
        | inl k ↦ rw (a, c, k) (refl, tt, unique)
        | inr k ↦ elim (Bool-cases (any (λ s. text_eq s.token_hash h) w.db.sessions)) [
          | inl b ↦ rw (a, c, k, b) (refl, tt, unique)
          | inr b ↦ elim (Bool-cases (has_user n w.db)) [
            | inr d ↦ rw (a, c, k, b, d) (refl, tt, unique)
            | inl d ↦
                rw (a, c, k, b, d, spec_call, c)
                  (
                    fun_ext (λ x.
                        view-append (new_session rt (rt.random_uuid w.drawn) n h e l) w.db.sessions
                          x (view-none h w.db.sessions b)),
                    refl,
                    append-IsUniqueHash (new_session rt (rt.random_uuid w.drawn) n h e l)
                        w.db.sessions (view-none h w.db.sessions b) unique,
                  )
          ]
        ]
      ]
    ]
    | inr a ↦ rw a (refl, tt, unique)
  ]

  uses_lem :
      (h : Text) (now : ℕ)
      → Refines rt
          (uses h now)
          (perform rt (uses h now) w).0
          w.db.sessions
          (perform rt (uses h now) w).1.db.sessions
  unfolding perform find_active_session_by_token_hash mern_chat_app.Database.query
  uses_lem h now = elim (Bool-cases (first_answer w.answers)) [
    | inl a ↦ rw a (
      fun_ext (view-used h now w.db.sessions),
      active_lem rt h now w.db.sessions unique,
      used-IsUniqueHash h now w.db.sessions unique,
    )
    | inr a ↦ rw a (refl, tt, unique)
  ]

  revokes_lem :
      (h : Text)
      → Refines rt
          (revokes h)
          (perform rt (revokes h) w).0
          w.db.sessions
          (perform rt (revokes h) w).1.db.sessions
  unfolding perform revoke_session_by_token_hash mern_chat_app.Database.query
  revokes_lem h = elim (Bool-cases (first_answer w.answers)) [
    | inl a ↦ rw a (
      fun_ext (view-delete_hash h w.db.sessions),
      refl,
      delete-IsUniqueHash (λ s. text_eq s.token_hash h) w.db.sessions unique,
    )
    | inr a ↦ rw a (refl, tt, unique)
  ]

  revokes_all_lem :
      (u : Text)
      → Refines rt
          (revokes_all u)
          (perform rt (revokes_all u) w).0
          w.db.sessions
          (perform rt (revokes_all u) w).1.db.sessions
  unfolding perform revoke_all_sessions_for_user mern_chat_app.Database.query
  revokes_all_lem u = elim (Bool-cases (first_answer w.answers)) [
    | inl a ↦ elim (Option-cases (rt.read_uuid u)) [
      | inl e ↦ rw (a, e) (refl, tt, unique)
      | inr (n, e) ↦
          rw (a, e, spec_call, e)
            (
              fun_ext (λ h. view-delete_user n w.db.sessions h unique),
              refl,
              delete-IsUniqueHash (λ s. s.user_id == n) w.db.sessions unique,
            )
    ]
    | inr a ↦ rw a (refl, tt, unique)
  ]

perform_lem :
    (rt : Runtime) (w : World) (c : SessionCall)
    → IsUniqueHash w.db.sessions
    → Refines rt c (perform rt c w).0 w.db.sessions (perform rt c w).1.db.sessions
perform_lem rt w (creates u h e l) k = creates_lem rt w k u h e l
perform_lem rt w (uses h now) k = uses_lem rt w k h now
perform_lem rt w (revokes h) k = revokes_lem rt w k h
perform_lem rt w (revokes_all u) k = revokes_all_lem rt w k u

-- For any sequence of calls of the session repository (create, find by the hash of the token, revoke by
-- the hash, revoke all of a user), with queries that fail at any point, on a table in which no two rows
-- have one hash: the table that results stands for the specification that results when the calls that
-- returned are replayed on what the first table stands for, and each lookup that returned has answered
-- the holder that the specification has at that point: the user to whom the hash was last granted,
-- unless it was revoked, by itself or with all of the user's, or has expired.
pub calls_refine :
    (rt : Runtime) (calls : List SessionCall) (w : World)
    → IsUniqueHash w.db.sessions
    → (view (perform_all rt calls w).1.db.sessions
        ≡ replay rt (perform_all rt calls w).0 (view w.db.sessions))
      × Agrees rt (perform_all rt calls w).0 (view w.db.sessions)
unfolding perform_all
calls_refine rt [] w k = (refl, tt)
calls_refine rt (c ∷ calls) w k =
    let v = (perform rt c w).1 in
    let r = perform_lem rt w c k in
    let trace = (perform_all rt calls v).0 in
    let ih = calls_refine rt calls v r.2 in
    (ih.0 ∙ ap (replay rt trace) r.0, (r.1, subst (Agrees rt trace) r.0 ih.1))
