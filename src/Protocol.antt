-- ===== src/Protocol.antt =====
-- internal/protocol/message.go: the messages of the WebSocket protocol and the requests of the
-- HTTP and gRPC ones. An action that the constants do not name is kept as its text.
use room_chat.Prelude.{ℕ, Bool, true, false, Option, none, Text, []}

pub data MessageAction : Type 0 where
  join leave text_message system error login : MessageAction
  other : Text → MessageAction

pub data MessageType : Type 0 where
  unset push request response : MessageType

pub data ErrorType : Type 0 where
  authorization validation forbidden internal_server_error conflict : ErrorType

pub data UserErrMessage : Type 0 where
  username_nick_taken internal_server missing_required_fields user_name_empty : UserErrMessage
  password_empty invalid_username_or_password nick_already_exists : UserErrMessage
  authentication_required missing_or_invalid_credentials missing_metadata : UserErrMessage
  missing_authorization not_member_of_channel invalid_json authorization_required : UserErrMessage
  invalid_credentials : UserErrMessage

pub record ErrorDetails : Type 0 where
  pub type : ErrorType
  pub message : Text

pub record Response : Type 0 where
  pub content : Text
  pub success : Bool
  pub resp_err : Option ErrorDetails

pub record Push : Type 0 where
  pub content : Text

pub record Request : Type 0 where
  pub content : Text
  pub token : Text

-- `created_at` counts from the zero time, which is 0.
pub record Message : Type 0 where
  pub id : Text
  pub action : MessageAction
  pub type : MessageType
  pub client_id : Text
  pub user : Text
  pub request_id : Text
  pub channel : Text
  pub created_at : ℕ
  pub response : Option Response
  pub push : Option Push
  pub request : Request

-- Go's zero value: the fields that a composite literal leaves out.
abbrev pub zero_message : Message
zero_message = record {
  id = [];
  action = other [];
  type = unset;
  client_id = [];
  user = [];
  request_id = [];
  channel = [];
  created_at = 0;
  response = none;
  push = none;
  request = record { content = []; token = [] };
}

-- `message.Action != protocol.LoginAction` is the negation of this test.
unfoldable pub is_login : MessageAction → Bool
is_login login = true
is_login _ = false

pub record CreateUserRequest : Type 0 where
  pub username : Text
  pub password : Text
  pub nick : Text

pub record UpdateUserRequest : Type 0 where
  pub nick : Text
