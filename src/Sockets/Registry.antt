-- ===== src/Sockets/Registry.antt =====
-- `socketsByUser` against the sockets of each user as a function: no entry stands for no socket.
use mern_chat_app.Common.{
  Text, ◌≡◌, refl, text_eq, text_eq_refl, eq_of_text_eq, any, Bool, true, false, not, ◌&&◌,
  if◌then◌else◌, Option, none, some, List, [], ◌∷◌, ◌++◌, arith, inl, inr, Bool-cases, ◌∙◌, ap, ◌⊎◌,
  subst, sym,
}
use mern_chat_app.Common.Sql.{delete}
use mern_chat_app.Sockets.{
  SocketMap, get, add, put, is_empty, removed, add_socket_for_user, remove_socket_for_user,
}

-- The two things that happen to a user's socket.
pub data SocketEvent : Type 0 where
  connects disconnects : (user_id socket_id : Text) → SocketEvent

unfoldable pub handle : SocketEvent → SocketMap → Bool × SocketMap
handle (connects u s) m = add_socket_for_user u s m
handle (disconnects u s) m = remove_socket_for_user u s m

-- The answers, and the map at the end.
unfoldable pub handle_all : List SocketEvent → SocketMap → List Bool × SocketMap
handle_all [] m = ([], m)
handle_all (e ∷ events) m =
    let (b, m') = handle e m in let (bs, last) = handle_all events m' in (b ∷ bs, last)

-- The sockets of each user.
abbrev pub Live : Type 0
Live = Text → List Text

abbrev pub at_text : {A : Type 0} → Text → A → (Text → A) → Text → A
at_text u a f v = if text_eq u v then a else f v

abbrev pub without : Text → List Text → List Text
without s = delete (λ t. text_eq t s)

abbrev pub live_step : SocketEvent → Live → Live
live_step (connects u s) f = at_text u (add s (f u)) f
live_step (disconnects u s) f = at_text u (without s (f u)) f

-- Whether the user had no socket before, and whether the last one goes.
abbrev pub turns : SocketEvent → Live → Bool
turns (connects u s) f = is_empty (f u)
turns (disconnects u s) f = not (is_empty (f u)) && is_empty (without s (f u))

abbrev pub live_all : List SocketEvent → Live → List Bool × Live
live_all [] f = ([], f)
live_all (e ∷ events) f = let (bs, last) = live_all events (live_step e f) in (turns e f ∷ bs, last)

abbrev pub entry : List Text → Option (List Text)
entry [] = none
entry (s ∷ sockets) = some (s ∷ sockets)

abbrev pub Represents : SocketMap → Live → Type 0
Represents m f = (u : Text) → get u m ≡ entry (f u)

get-put :
    (u v : Text) (x : List Text) (m : SocketMap)
    → get v (put u x m)
      ≡ (if text_eq u v then elim (get u m) [ none ↦ none | some y ↦ some x ] else get v m)
get-put u v x [] = ground arith
get-put u v x (e ∷ m) = ground (
  arith,
  get-put u v x m,
  eq_of_text_eq e.0 u,
  eq_of_text_eq e.0 v,
  eq_of_text_eq u v,
  text_eq_refl u,
  text_eq_refl v,
)

get-delete :
    (u v : Text) (m : SocketMap)
    → get v (delete (λ e. text_eq e.0 u) m) ≡ (if text_eq u v then none else get v m)
get-delete u v [] = ground arith
get-delete u v (e ∷ m) = ground (
  arith,
  get-delete u v m,
  eq_of_text_eq e.0 u,
  eq_of_text_eq e.0 v,
  eq_of_text_eq u v,
  text_eq_refl u,
  text_eq_refl v,
)

get-append :
    (u v : Text) (x : List Text) (m : SocketMap)
    → get u m ≡ none
    → get v (m ++ (u, x) ∷ []) ≡ (if text_eq u v then some x else get v m)
get-append u v x [] h = ground arith
get-append u v x (e ∷ m) h =
    ground (arith, get-append u v x m, eq_of_text_eq e.0 v, eq_of_text_eq u v, text_eq_refl u)

-- A set of sockets is empty, or an entry.
entry-cases :
    (xs : List Text)
    → ((xs ≡ []) × (entry xs ≡ none)) ⊎ ((is_empty xs ≡ false) × (entry xs ≡ some xs))
entry-cases [] = inl (refl, refl)
entry-cases (s ∷ xs) = inr (refl, refl)

entry-add : (s : Text) (xs : List Text) → entry (add s xs) ≡ some (add s xs)
entry-add s [] = ground arith
entry-add s (x ∷ xs) = elim (Bool-cases (any (λ t. text_eq t s) (x ∷ xs))) [
  | inl e ↦ ground arith
  | inr e ↦ ground arith
]

removed_lem :
    (u v : Text) (xs : List Text) (m : SocketMap) (y : List Text)
    → get u m ≡ some y
    → ((removed u xs m).0 ≡ is_empty xs)
      × (get v (removed u xs m).1 ≡ (if text_eq u v then entry xs else get v m))
removed_lem u v [] m y h = (refl, get-delete u v m)
removed_lem u v (x ∷ xs) m y h = (refl, get-put u v (x ∷ xs) m ∙ rw h refl)

-- The four ways that the two operations go.
module _ (u s : Text) (m : SocketMap) where
  add_new : get u m ≡ none → add_socket_for_user u s m ≡ (true, m ++ (u, add s []) ∷ [])
  unfolding add_socket_for_user
  add_new g = rw (add_socket_for_user, g) refl

  add_known :
      (xs : List Text)
      → get u m ≡ some xs
      → add_socket_for_user u s m ≡ (is_empty xs, put u (add s xs) m)
  unfolding add_socket_for_user
  add_known xs g = rw (add_socket_for_user, g) refl

  remove_none : get u m ≡ none → remove_socket_for_user u s m ≡ (false, m)
  unfolding remove_socket_for_user
  remove_none g = rw (remove_socket_for_user, g) refl

  remove_known :
      (xs : List Text)
      → get u m ≡ some xs
      → remove_socket_for_user u s m ≡ removed u (without s xs) m
  unfolding remove_socket_for_user
  remove_known xs g = rw (remove_socket_for_user, g) refl

-- An answer and a map that are as the function has them.
abbrev Follows : Bool × SocketMap → Bool → Live → Type 0
Follows r b f = (r.0 ≡ b) × Represents r.1 f

-- The entry of a user whose sockets changed, and of another one.
at-entry :
    (u v : Text) (x : List Text) (f : Live) (m : SocketMap)
    → Represents m f
    → (if text_eq u v then entry x else get v m) ≡ entry (at_text u x f v)
at-entry u v x f m h = ground (arith, h v)

connect_lem :
    (u s : Text) (m : SocketMap) (f : Live)
    → Represents m f
    → Follows (add_socket_for_user u s m) (is_empty (f u)) (live_step (connects u s) f)
connect_lem u s m f h = elim (entry-cases (f u)) [
  | inl (e, k) ↦
      let g = h u ∙ k in
      subst (λ r. Follows r (is_empty (f u)) (live_step (connects u s) f)) (sym (add_new u s m g))
        (
          ap is_empty (sym e),
          λ v.
              get-append u v (add s []) m g
              ∙ ap (λ xs. if text_eq u v then some (add s xs) else get v m) (sym e)
              ∙ ap (λ o. if text_eq u v then o else get v m) (sym (entry-add s (f u)))
              ∙ at-entry u v (add s (f u)) f m h,
        )
  | inr (e, k) ↦
      let g = h u ∙ k in
      subst (λ r. Follows r (is_empty (f u)) (live_step (connects u s) f))
        (sym (add_known u s m (f u) g))
        (
          refl,
          λ v.
              get-put u v (add s (f u)) m
              ∙ ap
                  (λ o.
                    if text_eq u v
                    then elim o [ none ↦ none | some y ↦ some (add s (f u)) ]
                    else get v m)
                  g
              ∙ ap (λ o. if text_eq u v then o else get v m) (sym (entry-add s (f u)))
              ∙ at-entry u v (add s (f u)) f m h,
        )
]

absent_lem :
    (u v s : Text) (f : Live) → f u ≡ [] → entry (f v) ≡ entry (at_text u (without s (f u)) f v)
absent_lem u v s f e = elim (Bool-cases (text_eq u v)) [
  | inl t ↦ rw t (
      ap (λ x. entry (f x)) (sym (eq_of_text_eq u v t))
      ∙ ap (λ xs. entry xs) e
      ∙ ap (λ xs. entry (without s xs)) (sym e))
  | inr t ↦ rw t refl
]

disconnect_lem :
    (u s : Text) (m : SocketMap) (f : Live)
    → Represents m f
    → Follows
        (remove_socket_for_user u s m)
        (turns (disconnects u s) f)
        (live_step (disconnects u s) f)
disconnect_lem u s m f h = elim (entry-cases (f u)) [
  | inl (e, k) ↦
      subst (λ r. Follows r (turns (disconnects u s) f) (live_step (disconnects u s) f))
        (sym (remove_none u s m (h u ∙ k)))
        (
          ap (λ xs. not (is_empty xs) && is_empty (without s xs)) (sym e),
          λ v. h v ∙ absent_lem u v s f e,
        )
  | inr (e, k) ↦
      let g = h u ∙ k in
      subst (λ r. Follows r (turns (disconnects u s) f) (live_step (disconnects u s) f))
        (sym (remove_known u s m (f u) g))
        (
          (removed_lem u u (without s (f u)) m (f u) g).0
              ∙ ap (λ b. not b && is_empty (without s (f u))) (sym e),
          λ v.
              (removed_lem u v (without s (f u)) m (f u) g).1
              ∙ at-entry u v (without s (f u)) f m h,
        )
]

handle_lem :
    (e : SocketEvent) (m : SocketMap) (f : Live)
    → Represents m f
    → Follows (handle e m) (turns e f) (live_step e f)
unfolding handle
handle_lem (connects u s) m f h = connect_lem u s m f h
handle_lem (disconnects u s) m f h = disconnect_lem u s m f h

-- Whatever connections and disconnections a server handles, in any order and also of sockets it does not
-- know: its map holds exactly the users that have a socket, each with the sockets that were added and not
-- removed since, in their order, and never an empty set; a connection is answered `true` just if its user
-- had no socket before, a disconnection just if it takes the last socket of its user.
pub handle_refines :
    (events : List SocketEvent) (m : SocketMap) (f : Live)
    → Represents m f
    → ((handle_all events m).0 ≡ (live_all events f).0)
      × ((u : Text) → get u (handle_all events m).1 ≡ entry ((live_all events f).1 u))
unfolding handle_all
handle_refines [] m f h = (refl, h)
handle_refines (e ∷ events) m f h =
    let (answer, next) = handle_lem e m f h in
    let (answers, last) = handle_refines events (handle e m).1 (live_step e f) next in
    (
      ap (λ b. b ∷ (handle_all events (handle e m).1).0) answer ∙ ap (λ bs. turns e f ∷ bs) answers,
      last,
    )
