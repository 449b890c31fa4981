-- ===== src/Channel.antt =====
-- internal/channels/channel.go: a channel's members. Its pushes are in Sending.
use room_chat.Prelude.{
  ℕ, Bool, Option, none, some, List, [], ◌++◌, Text, text, length, if◌then◌else◌, text_eq,
}
use room_chat.Prelude.Sets.{contains, insert, erase}
use room_chat.Protocol.{Message, system, text_message, MessageType, zero_message}

pub record Channel : Type 0 where
  pub name : Text
  pub users : List Text

unfoldable pub new_channel : Text → Channel
new_channel name = record { name = name; users = [] }

abbrev pub has_user : Text → Channel → Bool
has_user username ch = contains ch.users username

-- `none` is ErrUserAlreadyExists.
unfoldable pub add_user : Text → Channel → Option Channel
add_user username ch =
    if contains ch.users username
    then none
    else some (record ch { users = insert username ch.users })

-- `none` is ErrNotAMember.
unfoldable pub remove_user : Text → Channel → Option Channel
remove_user username ch =
    if contains ch.users username
    then some (record ch { users = erase username ch.users })
    else none

abbrev pub get_usernames : Channel → List Text
get_usernames ch = ch.users

abbrev pub active_users_count : Channel → ℕ
active_users_count ch = length ch.users

unfoldable pub system_push : Text → Text → Message
system_push name content = record zero_message {
  action = system;
  type = MessageType.push;
  channel = name;
  push = some (record { content = content });
}

-- The messages that SendWelcomeMessage, SendLeaveMessage and SendMessage build.
unfoldable pub welcome_message : Text → Text → Message
unfolding system_push
welcome_message name username = system_push name (username ++ text " joined the channel")

unfoldable pub leave_message : Text → Text → Message
unfolding system_push
leave_message name username = system_push name (username ++ text " left the channel")

unfoldable pub push_message : Text → Message → Message
push_message name message = record zero_message {
  action = text_message;
  type = MessageType.push;
  channel = name;
  user = message.user;
  push = some (record { content = message.request.content });
  created_at = message.created_at;
}
