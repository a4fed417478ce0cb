-- ===== src/Sessions/Tests.antt =====
-- A session that is created, used and revoked between failures.
use mern_chat_app.Common.{codes, ◌≡◌, List, [], ◌∷◌, true, false}
use mern_chat_app.Database.{World}
use mern_chat_app.Database.Samples.{sample_runtime, sample_world}
use mern_chat_app.Sessions.Spec.{
  SessionCall, creates, uses, revokes, revokes_all, perform_all, view, replay, Agrees,
}
use mern_chat_app.Sessions.Refinement.{calls_refine}

-- The second call is not answered.
abbrev unreliable : World
unreliable = record sample_world { answers = true ∷ false ∷ [] }

abbrev session_calls : List SessionCall
session_calls =
    creates (1 ∷ []) (codes "h") 50 10
    ∷ revokes (codes "h")
    ∷ uses (codes "h") 20
    ∷ revokes_all (1 ∷ [])
    ∷ uses (codes "h") 30
    ∷ []

calls_refine_example :
    (view (perform_all sample_runtime session_calls unreliable).1.db.sessions
      ≡ replay sample_runtime (perform_all sample_runtime session_calls unreliable).0 (view []))
    × Agrees sample_runtime (perform_all sample_runtime session_calls unreliable).0 (view [])
calls_refine_example = calls_refine sample_runtime session_calls unreliable tt
