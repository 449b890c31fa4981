-- ===== src/Server/Clients.antt =====
-- internal/server/server.go, addClient, removeClient and removeUserFromAllChannels.
use room_chat.Prelude.{ℕ, List, [], ◌∷◌, Text, none, some, text_eq, if◌then◌else◌}
use room_chat.Prelude.Maps.{insert, delete}
use room_chat.User.{username, remove_channel, get_channels, has_connections}
use room_chat.Store.{
  Store, Exec, ◌>>=◌, ◌>>◌, pure, gets, modify, lock, unlock, rlock, runlock, close, set_user,
}
use room_chat.Sessions.{get_user, remove_client_from_user}
use room_chat.Rooms.{get, channel_remove_user, send_leave_message}
use room_chat.Server.Membership.{cleanup_empty_channel}
use room_chat.Server.Replies.{find_client}

unfoldable pub insert_client : ℕ → Store → Store
insert_client p s = record s { clients = insert (s.client_at p).conn_id p s.clients }

unfoldable pub add_client : ℕ → Exec (Unit {0})
unfolding insert_client
add_client p = do lock; modify (insert_client p); unlock

-- One round of the loop over the user's channels. Where the channel or the membership is missing
-- the round goes on to the next name with the read lock still held.
unfoldable pub leave_one : ℕ → Text → Text → Exec (Unit {0})
leave_one u user_name name = do
  rlock
  found ← get name
  elim found [
    | none ↦ modify (set_user u (remove_channel name))
    | some c ↦ do
      failed ← channel_remove_user c user_name
      elim failed [
        | some e ↦ pure tt
        | none ↦ do
          modify (set_user u (remove_channel name))
          runlock
          send_leave_message c user_name
          cleanup_empty_channel name c
      ]
  ]

unfoldable pub leave_each : ℕ → Text → List Text → Exec (Unit {0})
unfolding leave_one
leave_each u user_name [] = pure tt
leave_each u user_name (name ∷ names) = do leave_one u user_name name; leave_each u user_name names

unfoldable pub remove_user_from_all_channels : ℕ → Exec (Unit {0})
unfolding leave_each
remove_user_from_all_channels u = do
  user ← gets (λ s. s.user_at u)
  leave_each u (username user) (get_channels user)

unfoldable pub delete_client : Text → Store → Store
delete_client id s = record s { clients = delete id s.clients }

-- The part of removeClient under the lock.
unfoldable pub drop_client : ℕ → Exec (Unit {0})
unfolding delete_client
drop_client p = do
  lock
  client ← gets (λ s. s.client_at p)
  found ← find_client client.conn_id
  elim found [ none ↦ pure tt | some q ↦ do modify (delete_client client.conn_id); close p ]
  unlock

-- The rest of it, for a client that was logged in as `name`.
unfoldable pub detach_client : Text → ℕ → Exec (Unit {0})
unfolding remove_user_from_all_channels
detach_client name p = do
  found ← get_user name
  elim found [
    | none ↦ pure tt
    | some u ↦ do
      remove_client_from_user name p
      user ← gets (λ s. s.user_at u)
      if has_connections user then pure tt else remove_user_from_all_channels u
  ]

unfoldable pub remove_client : ℕ → Exec (Unit {0})
unfolding drop_client detach_client
remove_client p = do client ← gets (λ s. s.client_at p); drop_client p; detach_client client.user p
