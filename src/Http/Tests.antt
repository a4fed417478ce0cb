-- ===== src/Http/Tests.antt =====
-- Origins of unsafe requests, request ids, and the statuses of failures.
use mern_chat_app.Common.{codes, ◌≡◌, refl, none, some, [], ◌∷◌}
use mern_chat_app.Errors.{ok, err, app, pg, csrf_blocked}
use mern_chat_app.Http.{
  OriginRequest, verify_request_origin, request_origin, app_error, normalize_request_id,
  error_handler, as_app_error, thrown,
}

abbrev foreign_post : OriginRequest
foreign_post = record {
  method = codes "POST";
  origin = some (codes "http://evil");
  referer = some (codes "http://chat/x");
}

foreign_post_refused :
    verify_request_origin (λ r. some (codes "http://chat")) (codes "http://chat" ∷ []) foreign_post
    ≡ err (app (app_error (codes "Request origin is not allowed") 403 csrf_blocked))
unfolding verify_request_origin request_origin
foreign_post_refused = refl

referer_accepted :
    verify_request_origin
      (λ r. some (codes "http://chat"))
      (codes "http://chat" ∷ [])
      (record foreign_post { origin = none })
    ≡ ok tt
unfolding verify_request_origin request_origin
referer_accepted = refl

ids_normalized : normalize_request_id (codes "new") (some (codes "a b")) ≡ codes "new"
unfolding normalize_request_id
ids_normalized = refl

duplicates_conflict : (error_handler (codes "r") (thrown (pg (codes "23505")))).status_code ≡ 409
unfolding error_handler as_app_error
duplicates_conflict = refl
