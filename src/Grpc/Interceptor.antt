-- ===== src/Grpc/Interceptor.antt =====
-- internal/server/grpc.go: AuthInterceptor, and the server with its four methods behind it.
use room_chat.Prelude.{ℕ, Option, none, some, Text, text, text_beq, List, [], ◌∷◌, if◌then◌else◌}
use room_chat.Protocol.{
  UserErrMessage, internal_server, missing_metadata, missing_authorization,
  missing_or_invalid_credentials, invalid_username_or_password, CreateUserRequest,
}
use room_chat.User.{Profile}
use room_chat.Users.{UserError, Result, ok, err, Repository, Bcrypt, login}
use room_chat.Auth.{Parsed, credentials, not_ok, out_of_range, parse_basic_auth}
use room_chat.Elastic.Documents.{QueryClient}
use room_chat.Store.{Exec, ◌>>=◌, pure, panic, slice_out_of_range}
use room_chat.Http.{Context, no_context}
use room_chat.Grpc.{
  Code, unauthenticated, permission_denied, internal, Rpc, answer, status, plain_error, Timestamps,
}
use room_chat.Grpc.Messages.{WireMessage, WireBucket, list_messages, get_message_stats}
use room_chat.Grpc.Profiles.{register_profile, update_profile}

abbrev pub register_method : Text
register_method = text "/room_chat.RoomChat/RegisterProfile"

-- `next` is the method behind the interceptor, `refuse` makes the answer of an error.
module _ (repo : Repository) (bcrypt : Bcrypt) {A : Type 0} (next : Context → Exec A)
    (refuse : Code → UserErrMessage → A) where
  abbrev pub login_reply : Text → Result Profile → Exec A
  login_reply name (ok profile) = next (record { user_id = some profile.id; username = some name })
  login_reply name (err UserError.user_not_found) =
      pure (refuse permission_denied invalid_username_or_password)
  login_reply name (err UserError.invalid_password) =
      pure (refuse permission_denied invalid_username_or_password)
  login_reply name (err _) = pure (refuse internal internal_server)

  abbrev pub parsed_reply : repo.Db → Parsed → Exec A
  parsed_reply db not_ok = pure (refuse permission_denied missing_or_invalid_credentials)
  parsed_reply db out_of_range = panic slice_out_of_range
  parsed_reply db (credentials username password) =
      login_reply username (login repo bcrypt username password db)

  -- The metadata's values for "authorization"; `none` is no metadata.
  abbrev pub metadata_reply : repo.Db → Option (List Text) → Exec A
  metadata_reply db none = pure (refuse unauthenticated missing_metadata)
  metadata_reply db (some []) = pure (refuse unauthenticated missing_authorization)
  metadata_reply db (some (auth_header ∷ others)) = parsed_reply db (parse_basic_auth auth_header)

  unfoldable pub auth_interceptor : Text → Option (List Text) → repo.Db → Exec A
  auth_interceptor full_method metadata db =
      if text_beq full_method register_method then next no_context else metadata_reply db metadata

pub data RpcRequest : Type 0 where
  register_profile_request : CreateUserRequest → RpcRequest
  update_profile_request : Text → RpcRequest
  list_messages_request : Text → Option Text → RpcRequest
  message_stats_request : Text → Text → Text → RpcRequest

-- The names in the generated code.
abbrev pub full_method : RpcRequest → Text
full_method (register_profile_request req) = register_method
full_method (update_profile_request nick) = text "/room_chat.RoomChat/UpdateProfile"
full_method (list_messages_request channel author_id) = text "/room_chat.RoomChat/ListMessages"
full_method (message_stats_request channel_id author_id interval) =
    text "/room_chat.RoomChat/GetMessageStats"

pub data RpcResponse (t : Timestamps) : Type 0 where
  registered : ℕ → RpcResponse t
  empty : RpcResponse t
  messages : List (WireMessage t) → RpcResponse t
  buckets : List (WireBucket t) → RpcResponse t

abbrev pub map_answer : {A B : Type 0} → (A → B) → Rpc A → Rpc B
map_answer f (answer a) = answer (f a)
map_answer f (status c message) = status c message
map_answer f (plain_error e) = plain_error e

-- `salt` is what bcrypt draws.
module _ (t : Timestamps) (repo : Repository) (bcrypt : Bcrypt) (client : QueryClient) (salt : ℕ)
    (db : repo.Db) where
  abbrev pub with_db :
      {A : Type 0} → (A → RpcResponse t) → Rpc A × repo.Db → Rpc (RpcResponse t) × repo.Db
  with_db f (r, db') = (map_answer f r, db')

  abbrev pub call : RpcRequest → Context → Exec (Rpc (RpcResponse t) × repo.Db)
  call (register_profile_request req) context =
      pure (with_db registered (register_profile repo bcrypt salt req db))
  call (update_profile_request nick) context =
      pure (with_db (λ _. empty) (update_profile repo bcrypt context nick db))
  call (list_messages_request channel author_id) context = do
    r ← list_messages t client context channel author_id
    pure (map_answer messages r, db)
  call (message_stats_request channel_id author_id interval) context = do
    r ← get_message_stats t client context channel_id author_id interval
    pure (map_answer buckets r, db)

  unfoldable pub serve : RpcRequest → Option (List Text) → Exec (Rpc (RpcResponse t) × repo.Db)
  unfolding auth_interceptor
  serve req metadata =
      auth_interceptor repo bcrypt (call req) (λ c message. (status c message, db))
        (full_method req) metadata db
