-- ===== src/Users.antt =====
-- internal/user/users.go over the Repository interface of internal/user/repository.go. The
-- repository, its database and bcrypt are parameters.
pub mod Accounts
pub mod Postgres
use room_chat.Prelude.{ℕ, Bool, Option, none, some, Text, [], if◌then◌else◌}
use room_chat.Protocol.{CreateUserRequest, UpdateUserRequest}
use room_chat.User.{Profile}

-- The errors of repository.go; `other` is an error of the driver.
pub data UserError : Type 0 where
  user_not_found nick_already_exists user_already_exists user_or_nick_already_exists : UserError
  invalid_password internal_server missing_required_fields : UserError
  other : Text → UserError

pub data Result {ℓ} (A : Type ℓ) : Type ℓ where
  ok : A → Result A
  err : UserError → Result A

pub record Repository : Type 1 where
  pub Db : Type 0
  pub create : CreateUserRequest → Db → Result ℕ × Db
  pub update : ℕ → UpdateUserRequest → Db → Result Profile × Db
  pub get_by_username : Text → Db → Result Profile
  pub delete : ℕ → Db → Option UserError × Db

-- `generate` takes the salt that the library draws; it refuses a password of more than 72 bytes.
pub record Bcrypt : Type 0 where
  pub generate : ℕ → Text → Option Text
  pub compare_hash : Text → Text → Bool

module _ (repo : Repository) (bcrypt : Bcrypt) where
  unfoldable pub register : ℕ → CreateUserRequest → repo.Db → Result ℕ × repo.Db
  register salt req db = elim (bcrypt.generate salt req.password) [
    | none ↦ (err (other []), db)
    | some hash ↦ repo.create (record req { password = hash }) db
  ]

  abbrev pub login_error : UserError → UserError
  login_error user_not_found = user_not_found
  login_error _ = internal_server

  unfoldable pub login : Text → Text → repo.Db → Result Profile
  login username password db = elim (repo.get_by_username username db) [
    | err e ↦ err (login_error e)
    | ok user ↦ if bcrypt.compare_hash user.password password then ok user else err invalid_password
  ]

  unfoldable pub update_profile : ℕ → UpdateUserRequest → repo.Db → Result Profile × repo.Db
  update_profile user_id req db = repo.update user_id req db
