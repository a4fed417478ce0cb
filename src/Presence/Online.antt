-- ===== src/Presence/Online.antt =====
-- How long a user stays online.
use mern_chat_app.Common.{
  none, some, max, ◌+◌, ℕ, ◌≡◌, Text, text_eq, Bool, true, false, any, [], ◌∷◌, arith, ◌<◌, ◌≤◌,
  leb, ◌&&◌, Bool-cases, some, inl, eq_of_text_eq, text_eq-sym, inr, Option-cases, text_eq_refl,
  refl,
}
use mern_chat_app.Presence.{
  PresenceState, SortedSet, mark_user_online, zrem, zexpire, max_expiry, mark_user_offline,
  is_user_online, get_online_user_ids, live_sockets, zadd, reindex, presence_ttl_ms,
}

-- An entry of a socket that lasts until `e`.
abbrev pub has_socket : Text → ℕ → SortedSet → Bool
has_socket s e set_ = any (λ x. text_eq x.0 s && leb e x.1) set_

-- A socket of a user is known until `e`.
pub record IsConnected (u s : Text) (e : ℕ) (p : PresenceState) : Type 0 where
  pub entry : has_socket s e (p.sockets u) ≡ true
  pub kept : e ≤ p.deadline u

-- The scripts at a time; `offline` is of any socket but `s` of `u`.
pub data Script (u s : Text) (now : ℕ) : PresenceState → PresenceState → Type 0 where
  online : (p : PresenceState) (v t : Text) → Script u s now p (mark_user_online now v t p)
  offline :
      (p : PresenceState) (v t : Text)
      → (text_eq u v && text_eq s t) ≡ false
      → Script u s now p (mark_user_offline now v t p)
  checked : (p : PresenceState) (v : Text) → Script u s now p (is_user_online now v p).1
  listed : (p : PresenceState) → Script u s now p (get_online_user_ids now p).1

has-zrem :
    (s t : Text) (e : ℕ) (xs : SortedSet)
    → text_eq s t ≡ false
    → has_socket s e xs ≡ true
    → has_socket s e (zrem t xs) ≡ true
has-zrem s t e [] d h = h
has-zrem s t e (x ∷ xs) d h = elim (Bool-cases (text_eq x.0 t)) [
  | inl q ↦ rw q (has-zrem s t e xs d (rw (eq_of_text_eq x.0 t q, text_eq-sym t s, d) at h))
  | inr q ↦ rw q (ground (arith, has-zrem s t e xs d))
]

has-zexpire :
    (s : Text) (e now : ℕ) (xs : SortedSet)
    → now < e
    → has_socket s e xs ≡ true
    → has_socket s e (zexpire now xs) ≡ true
has-zexpire s e now [] d h = h
has-zexpire s e now (x ∷ xs) d h = ground (arith, has-zexpire s e now xs d)

-- A set with an entry has a highest score.
has-max :
    (s : Text) (e : ℕ) (xs : SortedSet)
    → has_socket s e xs ≡ true
    → (m : ℕ) × (max_expiry xs ≡ some m)
has-max s e [] h = absurd (ground arith)
has-max s e (x ∷ xs) h =
    elim (max_expiry xs)
      as (λ r. (m : ℕ) × (some (elim r [ none ↦ x.1 | some e ↦ max x.1 e ]) ≡ some m)) [
        | none ↦ (x.1, refl)
        | some k ↦ (max x.1 k, refl)
      ]

has-live :
    (u s : Text) (e now : ℕ) (p : PresenceState)
    → now < e
    → IsConnected u s e p
    → has_socket s e (live_sockets now u p) ≡ true
has-live u s e now p h c = ground (arith, c.entry, c.kept)

has-zadd :
    (s t : Text) (e score : ℕ) (xs : SortedSet)
    → e ≤ score
    → has_socket s e xs ≡ true
    → has_socket s e (zadd score t xs) ≡ true
has-zadd s t e score xs h k = elim (Bool-cases (text_eq s t)) [
  | inl q ↦ ground (arith, text_eq-sym s t)
  | inr q ↦ ground (arith, has-zrem s t e xs q k)
]

-- What the two scripts with a common end make of the sockets.
reindex-IsConnected :
    (u v s : Text) (e : ℕ) (current : SortedSet) (p : PresenceState)
    → IsConnected u s e p
    → (text_eq u v ≡ true → has_socket s e current ≡ true)
    → IsConnected u s e (reindex v current p).1
unfolding reindex
reindex-IsConnected u v s e current p c h = elim (Bool-cases (text_eq u v)) [
  | inl q ↦
      let (m, k) = has-max s e current (h q) in
      rw (reindex, k) (record { entry = rw q (h q); kept = c.kept })
  | inr q ↦ elim (Option-cases (max_expiry current)) [
    | inl k ↦ rw (reindex, k) (record { entry = rw q c.entry; kept = c.kept })
    | inr (m, k) ↦ rw (reindex, k) (record { entry = rw q c.entry; kept = c.kept })
  ]
]

module _ (u s : Text) (e now : ℕ) (before : now < e) (lasting : e ≤ now + presence_ttl_ms) where
  -- No script but the one for its own socket takes a connection away before its time is over.
  pub script-IsConnected :
      (p q : PresenceState) → Script u s now p q → IsConnected u s e p → IsConnected u s e q
  unfolding mark_user_online mark_user_offline is_user_online get_online_user_ids
  script-IsConnected p _ (online _ v t) c = elim (Bool-cases (text_eq u v)) [
    | inl h ↦ record {
      entry = rw h (
          has-zadd s t e (now + presence_ttl_ms) (live_sockets now v p) lasting
            (rw (← eq_of_text_eq u v h) (has-live u s e now p before c)));
      kept = rw h (omega (arith, lasting));
    }
    | inr h ↦ record { entry = rw h c.entry; kept = rw h c.kept }
  ]
  script-IsConnected p _ (offline _ v t other) c =
      reindex-IsConnected u v s e (zrem t (live_sockets now v p)) p c (λ h.
        has-zrem s t e (live_sockets now v p) (ground arith)
          (rw (← eq_of_text_eq u v h) (has-live u s e now p before c)))
  script-IsConnected p _ (checked _ v) c =
      reindex-IsConnected u v s e (zexpire now (live_sockets now v p)) p c (λ h.
        has-zexpire s e now (live_sockets now v p) before
          (rw (← eq_of_text_eq u v h) (has-live u s e now p before c)))
  script-IsConnected p _ (listed _) c = record { entry = c.entry; kept = c.kept }

-- A user with a connection is online until its time is over.
connected_online :
    (u s : Text) (e now : ℕ) (p : PresenceState)
    → now < e
    → IsConnected u s e p
    → (is_user_online now u p).0 ≡ true
unfolding is_user_online reindex
connected_online u s e now p h c =
    let (m, k) =
      has-max s e (zexpire now (live_sockets now u p))
        (has-zexpire s e now (live_sockets now u p) h (has-live u s e now p h c)) in
    rw (is_user_online, reindex, k) refl

-- Scripts at times from `start` on, before `e`.
pub data Scripts (u s : Text) (start e : ℕ) : PresenceState → PresenceState → Type 0 where
  done : (p : PresenceState) → Scripts u s start e p p
  step :
      (p q r : PresenceState) (now : ℕ)
      → start ≤ now
      → now < e
      → Script u s now p q
      → Scripts u s start e q r
      → Scripts u s start e p r

Scripts-IsConnected :
    (u s : Text) (start : ℕ) (p q : PresenceState)
    → Scripts u s start (start + presence_ttl_ms) p q
    → IsConnected u s (start + presence_ttl_ms) p
    → IsConnected u s (start + presence_ttl_ms) q
Scripts-IsConnected u s start p _ (done _) c = c
Scripts-IsConnected u s start p r (step _ q _ now from before x rest) c =
    Scripts-IsConnected u s start q r rest
      (script-IsConnected u s (start + presence_ttl_ms) now before (omega (arith, from)) p q x c)

connects :
    (now : ℕ) (u s : Text) (p : PresenceState)
    → IsConnected u s (now + presence_ttl_ms) (mark_user_online now u s p)
unfolding mark_user_online
connects now u s p = record {
  entry = ground (arith, text_eq_refl u, text_eq_refl s);
  kept = rw (text_eq_refl u) (omega arith);
}

-- A user whose socket was marked online is online for the next 60 seconds, whatever scripts run in
-- between for other users and other sockets, as long as that socket is not marked offline.
pub stays_online :
    (u s : Text) (start now : ℕ) (p q : PresenceState)
    → Scripts u s start (start + presence_ttl_ms) (mark_user_online start u s p) q
    → now < start + presence_ttl_ms
    → (is_user_online now u q).0 ≡ true
stays_online u s start now p q scripts h =
    connected_online u s (start + presence_ttl_ms) now q h (
      Scripts-IsConnected u s start (mark_user_online start u s p) q scripts (connects start u s p))
