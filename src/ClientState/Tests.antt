-- ===== src/ClientState/Tests.antt =====
-- A socket whose token has expired, and a session that is restored by a refresh.
use mern_chat_app.Common.{codes, ◌≡◌, refl, true, false, some, none, [], ◌∷◌}
use mern_chat_app.ClientState.{
  SocketState, disconnected, connecting, opened, disconnects, asks_me, connects,
  handle_connect_error, handle_disconnect, handle_me, AuthState, loading, authenticated,
  restore_session, set_auth_user, user, failed,
}
use mern_chat_app.Sockets.{auth_expired}

abbrev fresh : SocketState
fresh = record {
  active = false;
  suppress_disconnect_state = false;
  connection_status = disconnected;
  online_users = [];
  requests = [];
}

expired_reconnects :
    handle_me true (handle_disconnect (handle_connect_error (some auth_expired) (opened fresh)))
    ≡ record fresh {
      active = true;
      connection_status = connecting;
      requests = disconnects ∷ asks_me ∷ connects ∷ [];
    }
unfolding handle_me handle_disconnect handle_connect_error
expired_reconnects = refl

abbrev restoring : AuthState
restoring = record { auth_user = none; auth_status = loading }

refresh_restores :
    restore_session true (failed (some 401)) (user (codes "u")) restoring
    ≡ record { auth_user = some (codes "u"); auth_status = authenticated }
unfolding restore_session set_auth_user
refresh_restores = refl
