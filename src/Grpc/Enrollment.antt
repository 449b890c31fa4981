-- ===== src/Grpc/Enrollment.antt =====
-- Registering by gRPC: against the HTTP handler, and before a call.
use room_chat.Prelude.{
  ℕ, ◌≡◌, refl, ap, Bool, true, false, some, Text, text_beq, List, [], ◌∷◌, if◌then◌else◌, All,
}
use room_chat.Protocol.{CreateUserRequest, UserErrMessage, user_name_empty, password_empty}
use room_chat.Users.{UserError, Result, ok, err, Repository, Bcrypt, register}
use room_chat.Users.Accounts.{Verifies, KeepsCreated, login-register}
use room_chat.Auth.{get_encoded_base64_token}
use room_chat.Auth.Base64.{IsByte}
use room_chat.Auth.RoundTrip.{HasNoColon, parse-get_encoded_base64_token}
use room_chat.Store.{Exec}
use room_chat.Http.{
  Writer, error_body, id_body, empty_writer, Context, send_error, registered, handle_register,
}
use room_chat.Grpc.{
  Code, invalid_argument, unauthenticated, permission_denied, already_exists, internal, Rpc, answer,
  status, plain_error,
}
use room_chat.Grpc.Profiles.{register_reply, replied, register_profile}
use room_chat.Grpc.Interceptor.{register_method, auth_interceptor}

-- The status of HTTP that the handler sends where the method returns a code.
abbrev pub http_status : Code → ℕ
http_status invalid_argument = 422
http_status unauthenticated = 401
http_status permission_denied = 401
http_status already_exists = 409
http_status internal = 500

abbrev pub http_writer : Rpc ℕ → Writer
http_writer (answer id) = record { status = some 201; challenge = false; bodies = id_body id ∷ [] }
http_writer (status c message) = record {
  status = some (http_status c);
  challenge = false;
  bodies = error_body message ∷ [];
}
http_writer (plain_error e) = empty_writer

module _ (repo : Repository) (bcrypt : Bcrypt) where
  abbrev pub as_http : Rpc ℕ × repo.Db → Writer × repo.Db
  as_http (r, db) = (http_writer r, db)

  registered-replied :
      (x : Result ℕ × repo.Db)
      → registered repo bcrypt x empty_writer ≡ as_http (replied repo bcrypt x)
  unfolding send_error
  registered-replied (ok id, db) = refl
  registered-replied (err UserError.user_or_nick_already_exists, db) = refl
  registered-replied (err UserError.missing_required_fields, db) = refl
  registered-replied (err _, db) = refl

  checked-replied :
      (nameless keyless : Bool) (x : Result ℕ × repo.Db) (db : repo.Db)
      → (if nameless
          then (send_error 422 user_name_empty empty_writer, db)
          else if keyless
          then (send_error 422 password_empty empty_writer, db)
          else registered repo bcrypt x empty_writer)
        ≡ as_http (
            if nameless
            then (status invalid_argument user_name_empty, db)
            else if keyless
            then (status invalid_argument password_empty, db)
            else replied repo bcrypt x)
  unfolding send_error
  checked-replied true keyless x db = refl
  checked-replied false true x db = refl
  checked-replied false false x db = registered-replied x

  -- Registering by HTTP and by gRPC do the same: from the same request and database they leave the
  -- same database, and the response by HTTP has the identifier with 201, or the same error as the
  -- method, with the status that belongs to its code.
  pub handle_register-register_profile :
      (salt : ℕ) (req : CreateUserRequest) (db : repo.Db)
      → handle_register repo bcrypt salt (some req) db empty_writer
        ≡ as_http (register_profile repo bcrypt salt req db)
  unfolding register_profile
  handle_register-register_profile salt req db =
      checked-replied (text_beq req.username []) (text_beq req.password [])
        (register repo bcrypt salt req db) db

  register_reply-ok : (r : Result ℕ) (id : ℕ) → register_reply repo bcrypt r ≡ answer id → r ≡ ok id
  register_reply-ok (ok i) id e = cc
  register_reply-ok (err UserError.user_or_nick_already_exists) id e = cc
  register_reply-ok (err UserError.missing_required_fields) id e = cc
  register_reply-ok (err _) id e = cc

  replied-ok :
      (nameless keyless : Bool) (x : Result ℕ × repo.Db) (db db' : repo.Db) (id : ℕ)
      → (if nameless
          then (status invalid_argument user_name_empty, db)
          else if keyless
          then (status invalid_argument password_empty, db)
          else replied repo bcrypt x)
        ≡ (answer id, db')
      → x ≡ (ok id, db')
  replied-ok true keyless x db db' id run = absurd cc
  replied-ok false true x db db' id run = absurd cc
  replied-ok false false (r, after) db db' id run =
      λ i. (register_reply-ok r id (ap (λ y. y.0) run) i, ap (λ y. y.1) run i)

  -- If bcrypt accepts the password of a hash, and the repository keeps those whom it creates: after
  -- a registration by gRPC that was answered, with a name and a password of bytes and a name
  -- without a colon, a call of any method but RegisterProfile whose metadata has the token of that
  -- name and password passes the interceptor, which hands on the identifier that the registration
  -- answered and that name.
  pub auth_interceptor-register_profile :
      (salt : ℕ) (req : CreateUserRequest) (id : ℕ) (db db' : repo.Db) {A : Type 0}
      (next : Context → Exec A) (refuse : Code → UserErrMessage → A) (full_method : Text)
      (others : List Text)
      → Verifies bcrypt
      → KeepsCreated repo
      → All IsByte req.username
      → All IsByte req.password
      → HasNoColon req.username
      → text_beq full_method register_method ≡ false
      → register_profile repo bcrypt salt req db ≡ (answer id, db')
      → auth_interceptor repo bcrypt next refuse full_method
          (some (get_encoded_base64_token req.username req.password ∷ others))
          db'
        ≡ next (record { user_id = some id; username = some req.username })
  unfolding register_profile auth_interceptor
  auth_interceptor-register_profile salt req id db db' next refuse full_method others verifies keeps
        bytes key_bytes plain protected run =
      let stored =
        replied-ok (text_beq req.username []) (text_beq req.password [])
          (register repo bcrypt salt req db) db db' id run in
      let (profile, numbered, named, accepted) =
        login-register repo bcrypt salt req id db db' verifies keeps stored in
      rw
        (
          protected,
          parse-get_encoded_base64_token req.username req.password bytes key_bytes plain,
          accepted,
        )
        (ap (λ n. next (record { user_id = some n; username = some req.username })) numbered)
