-- ===== src/Grpc/Grants.antt =====
-- Which calls the gRPC server answers.
use room_chat.Prelude.{
  ℕ, ◌≡◌, refl, false, Option, some, none, Text, text_beq, List, [], ◌∷◌, text_eq, length, ◌<◌,
}
use room_chat.User.{Profile}
use room_chat.Users.{UserError, Result, ok, err, Repository, Bcrypt, login}
use room_chat.Auth.{Parsed, credentials, not_ok, out_of_range, parse_basic_auth}
use room_chat.Auth.RoundTrip.{parse_panics_iff}
use room_chat.Elastic.Documents.{QueryClient}
use room_chat.Store.{Store, done, panicked, slice_out_of_range}
use room_chat.Grpc.{answer, status, Timestamps}
use room_chat.Grpc.Interceptor.{
  login_reply, parsed_reply, metadata_reply, auth_interceptor, register_method, RpcRequest,
  full_method, RpcResponse, call, serve,
}
use room_chat.Grpc.Access.{IsMemberOf, channel_read, call-member}

-- The metadata has credentials first, that log the user in.
abbrev pub LogsIn :
    (repo : Repository) → Bcrypt → repo.Db → Option (List Text) → Text → Profile → Type 0
LogsIn repo bcrypt db metadata name profile =
    (header : Text) × (others : List Text) × (password : Text) × (metadata ≡ some (header ∷ others))
    × (parse_basic_auth header ≡ credentials name password)
    × (login repo bcrypt name password db ≡ ok profile)

module _ (t : Timestamps) (repo : Repository) (bcrypt : Bcrypt) (client : QueryClient) (salt : ℕ)
    (db : repo.Db) (s : Store) where
  module _ (req : RpcRequest) (metadata : Option (List Text)) (r : RpcResponse t) (db' : repo.Db)
      (s' : Store) where
    abbrev Granted : Type 0
    Granted =
        (name : Text) × (profile : Profile) × LogsIn repo bcrypt db metadata name profile
        × (s' ≡ s)
        × IsMemberOf s name (channel_read req)

    login_reply-Granted :
        (name password header : Text) (others : List Text) (o : Result Profile)
        → metadata ≡ some (header ∷ others)
        → parse_basic_auth header ≡ credentials name password
        → login repo bcrypt name password db ≡ o
        → login_reply repo bcrypt
            (call t repo bcrypt client salt db req)
            (λ c message. (status c message, db))
            name
            o
            s
          ≡ done (answer r, db') s'
        → Granted
    login_reply-Granted name password header others (ok profile) has parsed accepted run =
        let (same, inside) =
          call-member t repo bcrypt client salt db s _ name refl r db' s' req run in
        (name, profile, (header, others, password, has, parsed, accepted), same, inside)
    login_reply-Granted name password header others (err UserError.user_not_found) h p a run = cc
    login_reply-Granted name password header others (err UserError.invalid_password) h p a run = cc
    login_reply-Granted name password header others (err _) h p a run = cc

    parsed_reply-Granted :
        (header : Text) (others : List Text) (parsed : Parsed)
        → metadata ≡ some (header ∷ others)
        → parse_basic_auth header ≡ parsed
        → parsed_reply repo bcrypt
            (call t repo bcrypt client salt db req)
            (λ c message. (status c message, db))
            db
            parsed
            s
          ≡ done (answer r, db') s'
        → Granted
    parsed_reply-Granted header others not_ok has p run = cc
    parsed_reply-Granted header others out_of_range has p run = cc
    parsed_reply-Granted header others (credentials name password) has p run =
        login_reply-Granted name password header others _ has p refl run

    metadata_reply-Granted :
        (o : Option (List Text))
        → metadata ≡ o
        → metadata_reply repo bcrypt
            (call t repo bcrypt client salt db req)
            (λ c message. (status c message, db))
            db
            o
            s
          ≡ done (answer r, db') s'
        → Granted
    metadata_reply-Granted none has run = cc
    metadata_reply-Granted (some []) has run = cc
    metadata_reply-Granted (some (header ∷ others)) has run =
        parsed_reply-Granted header others _ has refl run

    -- A call of a method other than RegisterProfile that is answered without an error: the first
    -- value of its metadata has credentials that log a user in, that user is a member of the
    -- channel whose messages or statistics the request asks for, if it asks for any, and the
    -- server's memory is as it was.
    pub serve-Granted :
        serve t repo bcrypt client salt db req metadata s ≡ done (answer r, db') s'
        → text_beq (full_method req) register_method ≡ false
        → (name : Text) × (profile : Profile) × LogsIn repo bcrypt db metadata name profile
          × (s' ≡ s)
          × IsMemberOf s name (channel_read req)
    unfolding serve auth_interceptor
    serve-Granted run protected = metadata_reply-Granted metadata refl (rw protected at run)

  -- A call of a method other than RegisterProfile whose first value for "authorization" is shorter
  -- than the prefix: the process ends, whatever the state of the server, the users and the index.
  pub serve-panics :
      (req : RpcRequest) (header : Text) (others : List Text)
      → text_beq (full_method req) register_method ≡ false
      → length header < 6
      → serve t repo bcrypt client salt db req (some (header ∷ others)) s
        ≡ panicked slice_out_of_range
  unfolding serve auth_interceptor
  serve-panics req header others protected short = rw (protected, (parse_panics_iff header).1 short)
