-- ===== src/Server/Membership.antt =====
-- internal/server/server.go, handleJoinChannel and handleLeaveChannel.
use room_chat.Prelude.{ℕ, Text, none, some, nat_beq, text_eq, if◌then◌else◌}
use room_chat.Protocol.{Message, validation, forbidden, conflict, internal_server_error}
use room_chat.User.{username, add_channel, remove_channel}
use room_chat.Channel.{has_user, active_users_count}
use room_chat.Store.{
  Exec, nil_dereference, ◌>>=◌, ◌>>◌, pure, panic, gets, modify, lock, unlock, rlock, runlock,
  set_user,
}
use room_chat.Sessions.{get_user}
use room_chat.Rooms.{
  ChannelError, user_already_exists, not_a_member, get, get_or_create, registry_add_user,
  channel_remove_user, registry_delete, send_welcome_message, send_leave_message,
}
use room_chat.Server.Replies.{
  internal_server_text, already_in_channel, welcome_in_channel, not_a_member_of, no_such_channel,
  you_left, send_error, send_response, find_client,
}

unfoldable pub refuse_join : ℕ → Message → ChannelError → Exec (Unit {0})
refuse_join p m user_already_exists = send_error p already_in_channel m.request_id conflict
refuse_join p m _ = send_error p internal_server_text m.request_id internal_server_error

-- After `GetOrCreate`, with the lock held: user `u`, client `p`, channel `c`.
unfoldable pub join_into : ℕ → ℕ → ℕ → Message → Exec (Unit {0})
unfolding refuse_join
join_into u p c m = do
  user ← gets (λ s. s.user_at u)
  failed ← registry_add_user m.channel (username user)
  elim failed [
    | some e ↦ do unlock; refuse_join p m e
    | none ↦ do
      modify (set_user u (add_channel m.channel))
      unlock
      send_response p (welcome_in_channel m.channel) m.request_id
      send_welcome_message c (username user)
  ]

unfoldable pub join_as : ℕ → ℕ → Message → Exec (Unit {0})
unfolding join_into
join_as u p m = do c ← get_or_create m.channel; join_into u p c m

unfoldable pub handle_join_channel : Message → Exec (Unit {0})
unfolding join_as
handle_join_channel m = do
  found_user ← get_user m.user
  elim found_user [
    | none ↦ pure tt
    | some u ↦ do
      lock
      found ← find_client m.client_id
      elim found [ none ↦ unlock | some p ↦ join_as u p m ]
  ]

-- cleanupEmptyChannel, which handleLeaveChannel has once more in its own text.
unfoldable pub cleanup_empty_channel : Text → ℕ → Exec (Unit {0})
cleanup_empty_channel name c = do
  lock
  ch ← gets (λ s. s.channel_at c)
  (if nat_beq (active_users_count ch) 0 then modify (registry_delete name) else pure tt)
  unlock

-- After the member has been removed: `user` is what `GetUser` returned.
unfoldable pub leave_as : ℕ → ℕ → Text → Message → Exec (Unit {0})
unfolding cleanup_empty_channel
leave_as p c name m = do
  found_user ← get_user name
  elim found_user [
    | none ↦ panic nil_dereference
    | some u ↦ do
      modify (set_user u (remove_channel m.channel))
      send_response p (you_left m.channel) m.request_id
      user ← gets (λ s. s.user_at u)
      send_leave_message c (username user)
      cleanup_empty_channel m.channel c
  ]

unfoldable pub leave_member : ℕ → ℕ → Text → Message → Exec (Unit {0})
unfolding leave_as
leave_member p c name m = do
  failed ← channel_remove_user c name
  elim failed [ some not_a_member ↦ pure tt | _ ↦ leave_as p c name m ]

unfoldable pub leave_channel : ℕ → ℕ → Message → Exec (Unit {0})
unfolding leave_member
leave_channel p c m = do
  client ← gets (λ s. s.client_at p)
  ch ← gets (λ s. s.channel_at c)
  if has_user client.user ch
      then leave_member p c client.user m
      else send_error p (not_a_member_of m.channel) m.request_id forbidden

unfoldable pub handle_leave_channel : Message → Exec (Unit {0})
unfolding leave_channel
handle_leave_channel m = do
  rlock
  found ← find_client m.client_id
  elim found [
    | none ↦ runlock
    | some p ↦ do
      channel ← get m.channel
      runlock
      elim channel [
        | none ↦ send_error p (no_such_channel m.channel) m.request_id validation
        | some c ↦ leave_channel p c m
      ]
  ]
