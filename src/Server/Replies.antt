-- ===== src/Server/Replies.antt =====
-- internal/server/server.go, lines 28 to 35 and 352 to 379: the texts and the answers that a client
-- gets, and the lookup of a client by its ConnID.
use room_chat.Prelude.{ℕ, true, false, Option, none, some, [], ◌++◌, Text, text, text_eq}
use room_chat.Prelude.Maps.{lookup}
use room_chat.Protocol.{Message, MessageAction, MessageType, ErrorType, zero_message}
use room_chat.Store.{Exec, gets, send}

-- The constants, and the texts that the handlers format.
abbrev pub missing_token : Text
missing_token = text "Missing token."

abbrev pub missing_or_invalid_credentials : Text
missing_or_invalid_credentials = text "Missing or invalid credentials."

abbrev pub internal_server_text : Text
internal_server_text = text "Internal sever error."

abbrev pub already_logged_in : Text
already_logged_in = text "Already logged in."

abbrev pub already_in_channel : Text
already_in_channel = text "You are already in this channel."

abbrev pub invalid_login : Text
invalid_login = text "invalid username or password"

abbrev pub welcome_user : Text → Text
welcome_user name = text "Welcome " ++ name ++ text "!"

abbrev pub welcome_in_channel : Text → Text
welcome_in_channel name = text "Welcome in channel " ++ name ++ text "!"

abbrev pub not_a_member_of_this : Text → Text
not_a_member_of_this name = text "You are not a member of this channel: " ++ name

abbrev pub not_a_member_of : Text → Text
not_a_member_of name = text "You are not a member of channel '" ++ name ++ text "'"

abbrev pub no_such_channel : Text → Text
no_such_channel name = text "Channel " ++ name ++ text " does not exist"

abbrev pub you_left : Text → Text
you_left name = text "You left channel: " ++ name ++ text "!"

unfoldable pub error_message : Text → Text → ErrorType → Message
error_message message request_id type = record zero_message {
  type = MessageType.response;
  request_id = request_id;
  action = MessageAction.error;
  response = some (record {
    content = [];
    success = false;
    resp_err = some (record { type = type; message = message });
  });
}

unfoldable pub response_message : Text → Text → Message
response_message message request_id = record zero_message {
  type = MessageType.response;
  request_id = request_id;
  action = MessageAction.text_message;
  response = some (record { content = message; success = true; resp_err = none });
}

unfoldable pub send_error : ℕ → Text → Text → ErrorType → Exec (Unit {0})
unfolding error_message
send_error p message request_id type = send p (error_message message request_id type)

unfoldable pub send_response : ℕ → Text → Text → Exec (Unit {0})
unfolding response_message
send_response p message request_id = send p (response_message message request_id)

abbrev pub find_client : Text → Exec (Option ℕ)
find_client id = gets (λ s. lookup s.clients id)
