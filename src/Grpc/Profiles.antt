-- ===== src/Grpc/Profiles.antt =====
-- internal/server/grpc.go: RegisterProfile and UpdateProfile.
use room_chat.Prelude.{ℕ, none, some, Text, text_beq, [], if◌then◌else◌}
use room_chat.Protocol.{
  user_name_empty, password_empty, username_nick_taken, missing_required_fields, internal_server,
  nick_already_exists, CreateUserRequest,
}
use room_chat.User.{Profile}
use room_chat.Users
use room_chat.Users.{UserError, Result, ok, err, Repository, Bcrypt, register}
use room_chat.Http.{Context}
use room_chat.Grpc.{Rpc, answer, status, invalid_argument, already_exists, internal}

module _ (repo : Repository) (bcrypt : Bcrypt) where
  abbrev pub register_reply : Result ℕ → Rpc ℕ
  register_reply (ok id) = answer id
  register_reply (err UserError.user_or_nick_already_exists) =
      status already_exists username_nick_taken
  register_reply (err UserError.missing_required_fields) =
      status invalid_argument missing_required_fields
  register_reply (err _) = status internal internal_server

  abbrev pub replied : Result ℕ × repo.Db → Rpc ℕ × repo.Db
  replied (r, db) = (register_reply r, db)

  unfoldable pub register_profile : ℕ → CreateUserRequest → repo.Db → Rpc ℕ × repo.Db
  register_profile salt req db =
      if text_beq req.username []
      then (status invalid_argument user_name_empty, db)
      else if text_beq req.password []
      then (status invalid_argument password_empty, db)
      else replied (register repo bcrypt salt req db)

  -- The answer has no fields.
  abbrev pub update_reply : Result Profile → Rpc (Unit {0})
  update_reply (ok profile) = answer tt
  update_reply (err UserError.nick_already_exists) = status already_exists nick_already_exists
  update_reply (err _) = status internal internal_server

  abbrev pub profile_replied : Result Profile × repo.Db → Rpc (Unit {0}) × repo.Db
  profile_replied (r, db) = (update_reply r, db)

  unfoldable pub update_profile : Context → Text → repo.Db → Rpc (Unit {0}) × repo.Db
  update_profile context nick db = elim context.user_id [
    | none ↦ (status internal internal_server, db)
    | some id ↦ profile_replied (Users.update_profile repo bcrypt id (record { nick = nick }) db)
  ]
