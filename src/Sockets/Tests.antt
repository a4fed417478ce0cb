-- ===== src/Sockets/Tests.antt =====
-- The cookie of a handshake, and the sockets of two users.
use mern_chat_app.Common.{Text, codes, ◌≡◌, refl, some, List, [], ◌∷◌, true, false}
use mern_chat_app.Database.Samples.{sample_world}
use mern_chat_app.Sessions.Guard.{secure_route}
use mern_chat_app.Sockets.{get_cookie, find_cookie, get, handshake}
use mern_chat_app.Sockets.Handshake.{filled, verdict_of, handshake-secure_route}
use mern_chat_app.Sockets.Registry.{
  SocketEvent, connects, disconnects, handle_all, live_all, entry, handle_refines,
}
use mern_chat_app.UserController.Tests.{padded_runtime, plain_tokens}

cookie_header_found :
    get_cookie
      (λ s. some s)
      (some (codes "a=b; flag; accessToken = t=1 ;x=y"))
      (codes "accessToken")
    ≡ some (codes "t=1")
unfolding get_cookie find_cookie
cookie_header_found = refl

handshake-secure_route_example :
    let cookie =
      filled (get_cookie (λ s. some s) (some (codes "accessToken=t")) (codes "accessToken")) in
    let r = secure_route padded_runtime plain_tokens cookie 5 sample_world in
    handshake padded_runtime plain_tokens
      (λ s. some s)
      (some (codes "accessToken=t"))
      5
      sample_world
    ≡ (verdict_of padded_runtime cookie r.0, r.1)
handshake-secure_route_example =
    handshake-secure_route padded_runtime plain_tokens (λ s. some s) (some (codes "accessToken=t"))
      5 sample_world

abbrev socket_events : List SocketEvent
socket_events =
    connects (codes "ann") (codes "1")
    ∷ connects (codes "ann") (codes "2")
    ∷ connects (codes "bob") (codes "3")
    ∷ disconnects (codes "ann") (codes "1")
    ∷ disconnects (codes "bob") (codes "3")
    ∷ disconnects (codes "bob") (codes "3")
    ∷ []

handle_refines_example :
    ((handle_all socket_events []).0 ≡ true ∷ false ∷ true ∷ false ∷ true ∷ false ∷ [])
    × ((u : Text)
        → get u (handle_all socket_events []).1 ≡ entry ((live_all socket_events (λ v. [])).1 u))
handle_refines_example = handle_refines socket_events [] (λ u. []) (λ u. refl)
