-- ===== src/Users/Accounts.antt =====
-- Registering and logging in.
use room_chat.Prelude.{ℕ, ◌≡◌, Bool, true, some, Text, inl, inr, arith, Option-cases, if◌then◌else◌}
use room_chat.Protocol.{CreateUserRequest}
use room_chat.User.{Profile}
use room_chat.Users.{invalid_password, ok, err, Repository, Bcrypt, register, login}

-- bcrypt accepts the password that a hash was made from.
abbrev pub Verifies : Bcrypt → Type 0
Verifies bcrypt =
    (salt : ℕ) (password hash : Text)
    → bcrypt.generate salt password ≡ some hash
    → bcrypt.compare_hash hash password ≡ true

-- A user who was created is found by the name, with the identifier that was returned and the hash.
abbrev pub KeepsCreated : Repository → Type 0
KeepsCreated repo =
    (req : CreateUserRequest) (id : ℕ) (db db' : repo.Db)
    → repo.create req db ≡ (ok id, db')
    → (profile : Profile) × (repo.get_by_username req.username db' ≡ ok profile)
      × (profile.id ≡ id)
      × (profile.username ≡ req.username)
      × (profile.password ≡ req.password)

login_found :
    (repo : Repository) (bcrypt : Bcrypt) (name password : Text) (db : repo.Db) (profile : Profile)
    (b : Bool)
    → repo.get_by_username name db ≡ ok profile
    → bcrypt.compare_hash profile.password password ≡ b
    → login repo bcrypt name password db ≡ (if b then ok profile else err invalid_password)
unfolding login
login_found repo bcrypt name password db profile b found same = ground (arith, found, same)

-- Logging in succeeds exactly for a user whom the repository finds, with a password that fits the
-- hash.
pub login-ok :
    (repo : Repository) (bcrypt : Bcrypt) (name password : Text) (db : repo.Db) (profile : Profile)
    → login repo bcrypt name password db ≡ ok profile
    → (repo.get_by_username name db ≡ ok profile)
      × (bcrypt.compare_hash profile.password password ≡ true)
unfolding login
login-ok repo bcrypt name password db profile e = (ground arith, ground arith)

registered :
    (repo : Repository) (bcrypt : Bcrypt) (salt : ℕ) (req : CreateUserRequest) (id : ℕ)
    (db db' : repo.Db)
    → register repo bcrypt salt req db ≡ (ok id, db')
    → (hash : Text) × (bcrypt.generate salt req.password ≡ some hash)
      × (repo.create (record req { password = hash }) db ≡ (ok id, db'))
unfolding register
registered repo bcrypt salt req id db db' e =
    elim (Option-cases (bcrypt.generate salt req.password)) [
      | inl refused ↦ absurd (ground (arith, refused))
      | inr (hash, made) ↦ (hash, made, ground (arith, made))
    ]

-- If bcrypt accepts the password of a hash, and the repository keeps those whom it creates: after a
-- registration that went well the user logs in with the password, and gets the profile with the
-- identifier that the registration returned.
pub login-register :
    (repo : Repository) (bcrypt : Bcrypt) (salt : ℕ) (req : CreateUserRequest) (id : ℕ)
    (db db' : repo.Db)
    → Verifies bcrypt
    → KeepsCreated repo
    → register repo bcrypt salt req db ≡ (ok id, db')
    → (profile : Profile) × (profile.id ≡ id)
      × (profile.username ≡ req.username)
      × (login repo bcrypt req.username req.password db' ≡ ok profile)
login-register repo bcrypt salt req id db db' verifies keeps e =
    let (hash, made, created) = registered repo bcrypt salt req id db db' e in
    let (profile, found, numbered, named, hashed) =
      keeps (record req { password = hash }) id db db' created in
    (
      profile,
      numbered,
      named,
      login_found repo bcrypt req.username req.password db' profile true found
          (rw hashed (verifies salt req.password hash made)),
    )
