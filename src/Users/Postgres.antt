-- ===== src/Users/Postgres.antt =====
-- internal/user/repository.go, PostgresRepository, over the replies of the database to its four
-- statements, and the codes of internal/postgres/errcode.go.
use room_chat.Prelude.{
  ℕ, ◌≡◌, Option, none, some, Text, text, [], text_beq, if◌then◌else◌, arith, ap, sym, ◌∙◌, refl,
  List, ◌∷◌, Option-cases, inl, inr,
}
use room_chat.Protocol.{CreateUserRequest}
use room_chat.User.{Profile}
use room_chat.Users.{
  UserError, user_not_found, nick_already_exists, user_or_nick_already_exists, internal_server,
  missing_required_fields, other, Result, ok, err, Repository,
}

-- sql.ErrNoRows, a PgError with its code, or any other error with its text.
pub data QueryError : Type 0 where
  no_rows : QueryError
  pg_error driver_error : Text → QueryError

pub data Reply {ℓ} (A : Type ℓ) : Type ℓ where
  row : A → Reply A
  failed : QueryError → Reply A

-- A value that is bound to a parameter of a statement, or stands in a column of a row.
pub data Value : Type 0 where
  number time : ℕ → Value
  string : Text → Value

-- QueryRowContext and ExecContext: the text of a statement, and what is bound to $1, $2, … A query
-- gives its first row. `scan_error` is the text with which Scan refuses a row that does not fit.
pub record Database : Type 1 where
  pub Db : Type 0
  pub query_row : Text → List Value → Db → Reply (List Value) × Db
  pub exec : Text → List Value → Db → Option Text × Db
  pub scan_error : Text

abbrev pub unique_violation : Text
unique_violation = text "23505"

abbrev pub not_null_violation : Text
not_null_violation = text "23502"

-- Go's `Profile{}`.
abbrev pub zero_profile : Profile
zero_profile = record {
  id = 0;
  username = [];
  nick = [];
  password = [];
  created_at = 0;
  updated_at = 0;
}

-- The statements, without the layout.
abbrev pub insert_user : Text
insert_user =
    text
      "INSERT INTO users (username, password_hash, nick, created_at, updated_at) VALUES ($1, $2, $3, NOW(), NOW()) RETURNING id"

abbrev pub update_user : Text
update_user =
    text
      "UPDATE users SET nick = $1, updated_at = NOW() WHERE id = $2 RETURNING id, username, nick, created_at, updated_at"

abbrev pub delete_user : Text
delete_user = text "DELETE FROM users WHERE id = $1"

abbrev pub select_user : Text
select_user =
    text
      "SELECT id, username, nick, created_at, updated_at, password_hash FROM users WHERE username = $1"

-- Scan: the columns in the order of the destinations.
abbrev pub scan_id : List Value → Option ℕ
scan_id (number id ∷ []) = some id
scan_id _ = none

abbrev pub scan_updated : List Value → Option Profile
scan_updated (number id ∷ string username ∷ string nick ∷ time created ∷ time updated ∷ []) =
    some (record {
      id = id;
      username = username;
      nick = nick;
      password = [];
      created_at = created;
      updated_at = updated;
    })
scan_updated _ = none

abbrev pub scan_profile : List Value → Option Profile
scan_profile
      (number id ∷ string username ∷ string nick ∷ time created ∷ time updated ∷ string hash ∷ []) =
    some (record {
      id = id;
      username = username;
      nick = nick;
      password = hash;
      created_at = created;
      updated_at = updated;
    })
scan_profile _ = none

abbrev pub scanned_row : {A : Type 0} → Text → Option A → Reply A
scanned_row e none = failed (driver_error e)
scanned_row e (some a) = row a

abbrev pub scanned : {A : Type 0} → Text → (List Value → Option A) → Reply (List Value) → Reply A
scanned e scan (row vs) = scanned_row e (scan vs)
scanned e scan (failed error) = failed error

abbrev pub create_result : Reply ℕ → Result ℕ
create_result (row id) = ok id
create_result (failed (pg_error code)) =
    if text_beq code unique_violation
    then err user_or_nick_already_exists
    else if text_beq code not_null_violation
    then err missing_required_fields
    else err internal_server
create_result (failed no_rows) = err (other [])
create_result (failed (driver_error e)) = err (other e)

-- An error that is neither of the two falls through to the
-- end, where the profile is as it was made.
abbrev pub update_result : Reply Profile → Result Profile
update_result (row profile) = ok profile
update_result (failed no_rows) = err user_not_found
update_result (failed (pg_error code)) =
    if text_beq code unique_violation then err nick_already_exists else err internal_server
update_result (failed (driver_error e)) = ok zero_profile

abbrev pub get_result : Reply Profile → Result Profile
get_result (row profile) = ok profile
get_result (failed no_rows) = err user_not_found
get_result (failed (pg_error code)) = err internal_server
get_result (failed (driver_error e)) = err (other e)

abbrev pub delete_result : Option Text → Option UserError
delete_result none = none
delete_result (some e) = some (other e)

abbrev pub first_result : {A B D : Type 0} → (A → B) → A × D → B × D
first_result f (a, d) = (f a, d)

abbrev pub postgres_repository : Database → Repository
postgres_repository base = record {
  Db = base.Db;
  create = λ req db.
      first_result (λ r. create_result (scanned base.scan_error scan_id r))
        (base.query_row insert_user
          (string req.username ∷ string req.password ∷ string req.nick ∷ []) db);
  update = λ id req db.
      first_result (λ r. update_result (scanned base.scan_error scan_updated r))
        (base.query_row update_user (string req.nick ∷ number id ∷ []) db);
  get_by_username = λ name db.
      get_result
        (scanned base.scan_error scan_profile (base.query_row select_user (string name ∷ []) db).0);
  delete = λ id db. first_result delete_result (base.exec delete_user (number id ∷ []) db);
}

-- The INSERT puts $1 into the column username, $2 into password_hash and $3 into nick, and returns
-- the id of the row: the SELECT of the name then gives a row with those columns in its order.
abbrev pub SelectsInserted : Database → Type 0
SelectsInserted base =
    (name hash nick : Text) (id : ℕ) (db : base.Db)
    → (base.query_row insert_user (string name ∷ string hash ∷ string nick ∷ []) db).0
      ≡ row (number id ∷ [])
    → (created updated : ℕ) × ((base.query_row select_user (string name ∷ [])
          (base.query_row insert_user (string name ∷ string hash ∷ string nick ∷ []) db).1).0
        ≡ row (
            number id ∷ string name ∷ string nick ∷ time created ∷ time updated ∷ string hash ∷ []))

scan_id-some : (vs : List Value) (id : ℕ) → scan_id vs ≡ some id → vs ≡ number id ∷ []
scan_id-some (number n ∷ []) id e = ground arith
scan_id-some _ id e = absurd cc

scanned-row :
    (e : Text) (r : Reply (List Value)) (id : ℕ)
    → scanned e scan_id r ≡ row id
    → r ≡ row (number id ∷ [])
scanned-row e (row vs) id run = elim (Option-cases (scan_id vs)) [
  | inl misfit ↦ absurd (cc (run, misfit))
  | inr (n, fits) ↦ rw (scan_id-some vs n fits) (ground (arith, run, fits))
]
scanned-row e (failed error) id run = cc

create_result-ok : (r : Reply ℕ) (id : ℕ) → create_result r ≡ ok id → r ≡ row id
create_result-ok (row n) id e = ground arith
create_result-ok (failed no_rows) id e = cc
create_result-ok (failed (pg_error code)) id e = absurd (ground arith)
create_result-ok (failed (driver_error t)) id e = cc

-- If the SELECT of a name gives the row that the INSERT has put in, with its columns in the order
-- of the statement: the repository keeps the users whom it creates, under the identifiers that it
-- returns, with their names, their nicks and their hashes.
pub postgres_repository-create :
    (base : Database)
    → SelectsInserted base
    → (req : CreateUserRequest) (id : ℕ) (db db' : base.Db)
    → (postgres_repository base).create req db ≡ (ok id, db')
    → (profile : Profile) × ((postgres_repository base).get_by_username req.username db'
        ≡ ok profile)
      × (profile.id ≡ id)
      × (profile.username ≡ req.username)
      × (profile.nick ≡ req.nick)
      × (profile.password ≡ req.password)
postgres_repository-create base law req id db db' e =
    let inserted = scanned-row base.scan_error _ id (create_result-ok _ id (ap (λ r. r.0) e)) in
    let (created, updated, found) = law req.username req.password req.nick id db inserted in
    (
      record {
        id = id;
        username = req.username;
        nick = req.nick;
        password = req.password;
        created_at = created;
        updated_at = updated;
      },
      ap
            (λ d. get_result (
              scanned base.scan_error scan_profile
                (base.query_row select_user (string req.username ∷ []) d).0))
            (sym (ap (λ r. r.1) e))
          ∙ ap (λ r. get_result (scanned base.scan_error scan_profile r)) found,
      refl,
      refl,
      refl,
      refl,
    )
