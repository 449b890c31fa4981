-- ===== src/Rooms.antt =====
-- internal/channels/manager.go, the registry of the channels, and the pushes of channel.go, which
-- go to every member who is online.
use room_chat.Prelude.{ℕ, suc, Bool, Option, none, some, List, [], ◌∷◌, Text, nat_eq, text_eq}
use room_chat.Prelude.Maps.{lookup, insert, delete, update}
use room_chat.Protocol.{Message}
use room_chat.Channel.{
  new_channel, has_user, add_user, remove_user, get_usernames, welcome_message, leave_message,
  push_message,
}
use room_chat.Store.{Store, Exec, done, ◌>>=◌, ◌>>◌, pure, gets, modify, set_channel}
use room_chat.Sessions.{send_message_to}

pub data ChannelError : Type 0 where
  user_already_exists not_a_member channel_does_not_exist : ChannelError

-- `none` is ErrChannelDoesNotExist.
abbrev pub get : Text → Exec (Option ℕ)
get name = gets (λ s. lookup s.rooms name)

unfoldable pub allocate_channel : Text → Exec ℕ
allocate_channel name s = done s.next_channel (record s {
  channel_at = update s.channel_at s.next_channel (new_channel name);
  next_channel = suc s.next_channel;
  rooms = insert name s.next_channel s.rooms;
})

unfoldable pub get_or_create : Text → Exec ℕ
unfolding allocate_channel
get_or_create name = do
  found ← get name
  elim found [ some c ↦ pure c | none ↦ allocate_channel name ]

-- IsUserAMember: `none` is ErrChannelDoesNotExist.
unfoldable pub is_user_a_member : Text → Text → Exec (Option Bool)
is_user_a_member name username = do
  found ← get name
  elim found [
    | none ↦ pure none
    | some c ↦ do ch ← gets (λ s. s.channel_at c); pure (some (has_user username ch))
  ]

-- AddUser of a channel: `none` if it went well.
unfoldable pub channel_add_user : ℕ → Text → Exec (Option ChannelError)
channel_add_user c username = do
  ch ← gets (λ s. s.channel_at c)
  elim (add_user username ch) [
    | none ↦ pure (some user_already_exists)
    | some ch' ↦ do modify (set_channel c ch'); pure none
  ]

-- AddUser of the registry.
unfoldable pub registry_add_user : Text → Text → Exec (Option ChannelError)
unfolding channel_add_user
registry_add_user name username = do
  found ← get name
  elim found [ none ↦ pure (some channel_does_not_exist) | some c ↦ channel_add_user c username ]

-- RemoveUser of a channel.
unfoldable pub channel_remove_user : ℕ → Text → Exec (Option ChannelError)
channel_remove_user c username = do
  ch ← gets (λ s. s.channel_at c)
  elim (remove_user username ch) [
    | none ↦ pure (some not_a_member)
    | some ch' ↦ do modify (set_channel c ch'); pure none
  ]

-- Delete; its callers drop the error of an unknown channel, where the map stays as it is.
unfoldable pub registry_delete : Text → Store → Store
registry_delete name s = record s { rooms = delete name s.rooms }

-- The loop of Send over the members.
unfoldable pub send_to_members : List Text → Message → Exec (Unit {0})
unfolding send_message_to
send_to_members [] m = pure tt
send_to_members (w ∷ ws) m = do send_message_to w m; send_to_members ws m

unfoldable pub channel_send : ℕ → Message → Exec (Unit {0})
unfolding send_to_members
channel_send c m = do ch ← gets (λ s. s.channel_at c); send_to_members (get_usernames ch) m

unfoldable pub send_welcome_message : ℕ → Text → Exec (Unit {0})
unfolding channel_send
send_welcome_message c username = do
  ch ← gets (λ s. s.channel_at c)
  channel_send c (welcome_message ch.name username)

unfoldable pub send_leave_message : ℕ → Text → Exec (Unit {0})
unfolding channel_send
send_leave_message c username = do
  ch ← gets (λ s. s.channel_at c)
  channel_send c (leave_message ch.name username)

unfoldable pub channel_send_message : ℕ → Message → Exec (Unit {0})
unfolding channel_send
channel_send_message c m = do
  ch ← gets (λ s. s.channel_at c)
  channel_send c (push_message ch.name m)
