-- ===== src/Http.antt =====
-- internal/server/http_handler.go, http_middleware.go and auth_context.go, and SendError of
-- internal/errors/messages.go: the HTTP handlers as functions on the response.
pub mod Guards
pub mod Routes
pub mod Passes
use room_chat.Prelude.{
  ℕ, Bool, true, false, Option, none, some, Text, text_beq, List, [], ◌∷◌, ◌++◌, if◌then◌else◌,
}
use room_chat.Protocol.{
  UserErrMessage, invalid_json, user_name_empty, password_empty, username_nick_taken,
  missing_required_fields, internal_server, nick_already_exists, not_member_of_channel,
  authentication_required, invalid_credentials, CreateUserRequest, UpdateUserRequest,
}
use room_chat.User.{Profile}
use room_chat.Users
use room_chat.Users.{
  UserError, Result, ok, err, Repository, Bcrypt, register, login, update_profile,
}
use room_chat.Elastic.{IndexedMessage}
use room_chat.Elastic.Documents.{QueryClient, list_documents}
use room_chat.Store.{Exec, ◌>>=◌, pure}
use room_chat.Rooms.{is_user_a_member}

pub data Body : Type 0 where
  error_body : UserErrMessage → Body
  id_body : ℕ → Body
  profile_body : Profile → Body
  messages_body : Option (List IndexedMessage) → Body

-- A response as written so far. The first status stands, and writing a body makes it 200 if there
-- is none. `challenge` is the header WWW-Authenticate.
pub record Writer : Type 0 where
  pub status : Option ℕ
  pub challenge : Bool
  pub bodies : List Body

abbrev pub empty_writer : Writer
empty_writer = record { status = none; challenge = false; bodies = [] }

abbrev pub first_status : Option ℕ → ℕ → Option ℕ
first_status none n = some n
first_status (some old) n = some old

abbrev pub write_header : ℕ → Writer → Writer
write_header n w = record w { status = first_status w.status n }

abbrev pub encode : Body → Writer → Writer
encode b w = record w { status = first_status w.status 200; bodies = w.bodies ++ b ∷ [] }

unfoldable pub send_error : ℕ → UserErrMessage → Writer → Writer
send_error n message w = encode (error_body message) (write_header n w)

-- What BasicAuth puts in the request's context.
pub record Context : Type 0 where
  pub user_id : Option ℕ
  pub username : Option Text

abbrev pub no_context : Context
no_context = record { user_id = none; username = none }

module _ (repo : Repository) (bcrypt : Bcrypt) where
  abbrev pub register_answer : Result ℕ → Writer → Writer
  register_answer (ok id) w = encode (id_body id) (write_header 201 w)
  register_answer (err UserError.user_or_nick_already_exists) w =
      send_error 409 username_nick_taken w
  register_answer (err UserError.missing_required_fields) w =
      send_error 422 missing_required_fields w
  register_answer (err _) w = send_error 500 internal_server w

  abbrev pub registered : Result ℕ × repo.Db → Writer → Writer × repo.Db
  registered (r, db) w = (register_answer r w, db)

  -- The body of the request, `none` if it cannot be decoded. `salt` is what bcrypt draws.
  abbrev pub handle_register : ℕ → Option CreateUserRequest → repo.Db → Writer → Writer × repo.Db
  handle_register salt none db w = (send_error 400 invalid_json w, db)
  handle_register salt (some req) db w =
      if text_beq req.username []
      then (send_error 422 user_name_empty w, db)
      else if text_beq req.password []
      then (send_error 422 password_empty w, db)
      else registered (register repo bcrypt salt req db) w

  abbrev pub update_answer : Result Profile → Writer → Writer
  update_answer (ok profile) w = encode (profile_body profile) w
  update_answer (err UserError.nick_already_exists) w = send_error 409 nick_already_exists w
  update_answer (err _) w = send_error 500 internal_server w

  abbrev pub updated : Result Profile × repo.Db → Writer → Writer × repo.Db
  updated (r, db) w = (update_answer r w, db)

  abbrev pub update_as : ℕ → Option UpdateUserRequest → repo.Db → Writer → Writer × repo.Db
  update_as id none db w = (send_error 400 invalid_json w, db)
  update_as id (some req) db w = updated (update_profile repo bcrypt id req db) w

  abbrev pub handle_update :
      Context → Option UpdateUserRequest → repo.Db → Writer → Writer × repo.Db
  handle_update context req db w = elim context.user_id [
    | none ↦ (send_error 500 internal_server w, db)
    | some id ↦ update_as id req db w
  ]

  abbrev pub refuse_auth : UserErrMessage → Writer → Writer
  refuse_auth message w = send_error 401 message (record w { challenge = true })

  abbrev pub authenticated :
      {A : Type 0} → Text → Result Profile → (Context → Writer → A) → (Writer → A) → Writer → A
  authenticated name (err e) next refuse w = refuse (refuse_auth invalid_credentials w)
  authenticated name (ok profile) next refuse w =
      next (record { user_id = some profile.id; username = some name }) w

  -- The middleware: `next` is the handler behind it, `refuse` ends the request. The parser of the
  -- header is net/http's.
  abbrev pub basic_auth :
      {A : Type 0}
      → Option (Text × Text)
      → repo.Db
      → (Context → Writer → A)
      → (Writer → A)
      → Writer
      → A
  basic_auth none db next refuse w = refuse (refuse_auth authentication_required w)
  basic_auth (some (name, password)) db next refuse w =
      authenticated name (login repo bcrypt name password db) next refuse w

-- After an error of the index the handler goes on, and encodes the nil slice as well.
abbrev pub list_answer : Option (List IndexedMessage) → Writer → Writer
list_answer none w = encode (messages_body none) (send_error 500 internal_server w)
list_answer (some messages) w = encode (messages_body (some messages)) w

abbrev pub list_for : QueryClient → Text → Text → Option Bool → Writer → Writer
list_for client channel author_id none w = send_error 400 not_member_of_channel w
list_for client channel author_id (some false) w = send_error 401 not_member_of_channel w
list_for client channel author_id (some true) w =
    list_answer (list_documents client channel author_id) w

abbrev pub list_as : QueryClient → Text → Text → Text → Writer → Exec Writer
list_as client username channel author_id w =
    if text_beq channel [] then pure (send_error 400 missing_required_fields w) else do
      member ← is_user_a_member channel username
      pure (list_for client channel author_id member w)

unfoldable pub handle_list_messages : QueryClient → Context → Text → Text → Writer → Exec Writer
handle_list_messages client context channel author_id w = elim context.username [
  | none ↦ pure (send_error 500 internal_server w)
  | some username ↦ list_as client username channel author_id w
]
