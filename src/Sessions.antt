-- ===== src/Sessions.antt =====
-- internal/user/manager.go, the SessionManager: the users who are online, and the sending of an
-- event to all connections of one (SendEvent of internal/user/user.go).
use room_chat.Prelude.{
  ℕ, suc, Option, none, some, List, [], ◌∷◌, Text, nat_eq, text_eq, if◌then◌else◌,
}
use room_chat.Prelude.Maps.{lookup, insert, delete, update}
use room_chat.Protocol.{Message}
use room_chat.User.{Profile, new_user, add_client, remove_client, has_connections}
use room_chat.Store.{Store, Exec, done, ◌>>=◌, ◌>>◌, pure, gets, modify, set_user, try_send}

-- A failing `GetUser` returns a nil pointer: `none`.
abbrev pub get_user : Text → Exec (Option ℕ)
get_user username = gets (λ s. lookup s.sessions username)

-- &User{…}: a new address.
unfoldable pub allocate_user : Text → Profile → Exec ℕ
allocate_user username profile s = done s.next_user (record s {
  user_at = update s.user_at s.next_user (new_user profile);
  next_user = suc s.next_user;
  sessions = insert username s.next_user s.sessions;
})

unfoldable pub add_client_to_user : Text → ℕ → Profile → Exec ℕ
unfolding allocate_user
add_client_to_user username p profile = do
  found ← get_user username
  u ← elim found [ none ↦ allocate_user username profile | some u ↦ pure u ]
  modify (set_user u (add_client p))
  pure u

unfoldable pub session_remove : Text → Store → Store
session_remove username s = record s { sessions = delete username s.sessions }

unfoldable pub remove_client_from_user : Text → ℕ → Exec (Unit {0})
unfolding session_remove
remove_client_from_user username p = do
  found ← get_user username
  elim found [
    | none ↦ pure tt
    | some u ↦ do
      modify (set_user u (remove_client p))
      user ← gets (λ s. s.user_at u)
      if has_connections user then pure tt else modify (session_remove username)
  ]

-- The loop of SendEvent over the connections.
unfoldable pub send_to_each : List ℕ → Message → Exec (Unit {0})
unfolding try_send
send_to_each [] m = pure tt
send_to_each (p ∷ ps) m = do try_send p m; send_to_each ps m

unfoldable pub send_event : ℕ → Message → Exec (Unit {0})
unfolding send_to_each
send_event u m = do user ← gets (λ s. s.user_at u); send_to_each user.connections m

-- SendMessage of the manager; its callers drop the error of an unknown user.
unfoldable pub send_message_to : Text → Message → Exec (Unit {0})
unfolding send_event
send_message_to username m = do
  found ← get_user username
  elim found [ none ↦ pure tt | some u ↦ send_event u m ]
