-- ===== src/Presence/Tests.antt =====
-- A user with two sockets, one of which goes.
use mern_chat_app.Common.{codes, ◌≡◌, refl, true, arith, [], Text, zero}
use mern_chat_app.Presence.{PresenceState, mark_user_online, mark_user_offline, is_user_online}
use mern_chat_app.Presence.Online.{stays_online, Scripts, Script}

abbrev nobody : PresenceState
nobody = record { sockets = λ u. []; deadline = λ u. zero; online_users = [] }

abbrev ann : Text
ann = codes "ann"

abbrev two_sockets : PresenceState
two_sockets = mark_user_online 2_000 ann (codes "b") (mark_user_online 1_000 ann (codes "a") nobody)

abbrev one_socket : PresenceState
one_socket = mark_user_offline 3_000 ann (codes "b") two_sockets

stays_online_example : (is_user_online 60_999 ann one_socket).0 ≡ true
stays_online_example =
    stays_online ann (codes "a") 1_000 60_999 nobody one_socket
      (Scripts.step (mark_user_online 1_000 ann (codes "a") nobody) two_sockets one_socket 2_000
        (omega arith) (omega arith)
        (Script.online (mark_user_online 1_000 ann (codes "a") nobody) ann (codes "b"))
        (Scripts.step two_sockets one_socket one_socket 3_000 (omega arith) (omega arith)
          (Script.offline two_sockets ann (codes "b") refl) (Scripts.done one_socket)))
      (omega arith)
