-- ===== src/Server/Keeps/LoggingIn.antt =====
-- handleLogin.
use room_chat.Prelude.{
  ℕ, ◌≤◌, ◌≡◌, ◌≢◌, ◌⊎◌, refl, true, false, some, Text, [], text_eq, nat_eq, text_beq, length, inl,
  inr, Bool-cases, Option-cases, arith,
}
use room_chat.Prelude.Maps.{lookup}
use room_chat.Protocol.{Message, ErrorType, authorization, validation, internal_server_error}
use room_chat.Auth.{Parsed, credentials, not_ok, out_of_range, parse_basic_auth}
use room_chat.Auth.RoundTrip.{parse_panics_iff}
use room_chat.Connection.{Client, has_room, authenticate}
use room_chat.User.{Profile, add_client}
use room_chat.Users.{
  UserError, user_not_found, invalid_password, Result, ok, err, Repository, Bcrypt, login,
}
use room_chat.Store.{Store, Outcome, free, writing, continue, done, unlock}
use room_chat.Sessions.{add_client_to_user, allocate_user}
use room_chat.Server.Replies.{
  send_error, missing_token, missing_or_invalid_credentials, internal_server_text,
  already_logged_in, invalid_login, welcome_user,
}
use room_chat.Server.Login.{
  refuse_login, accept_login, login_result, login_parsed, login_client, handle_login,
}
use room_chat.Server.Invariant.{IsValid}
use room_chat.Server.Steps.Attach.{
  attached_to, attached_to-Conns, attached_to-Rooms, started, started-Conns, started-Rooms,
}
use room_chat.Server.Steps.Sends.{Queues}
use room_chat.Server.Steps.Valid.{
  Returns, with_mu, HasRoom, IsSound, IsSound-frame, IsSound-IsValid, send_error-Queues,
  send_response-Queues,
}

-- The repository finds a user by the name: `WHERE username = $1`.
abbrev pub FindsByName : Repository → Type 0
FindsByName repo =
    (name : Text) (db : repo.Db) (profile : Profile)
    → repo.get_by_username name db ≡ ok profile
    → profile.username ≡ name

-- The token is missing, or as long as the prefix that the parser cuts off.
abbrev pub HasWholeToken : Message → Type 0
HasWholeToken m = (m.request.token ≡ []) ⊎ (6 ≤ length m.request.token)

-- The run comes to its end with the lock held, and leaves a sound store.
abbrev Locked : Outcome (Unit {0}) → Type 0
Locked o = (t : Store) × IsSound t × (o ≡ done tt (with_mu writing t))

Queues-Locked :
    (s : Store) (o : Outcome (Unit {0})) → IsSound s → Queues (with_mu writing s) o → Locked o
Queues-Locked s o h (q, e, same) = (record s { queue_at = q }, IsSound-frame q s.mu same h, e)

pub authenticate_fresh :
    (w : Text) (c : Client)
    → c.authenticated ≡ false
    → authenticate w c ≡ record c { user = w; authenticated = true }
unfolding authenticate
authenticate_fresh w c fresh = rw fresh

pub login-get :
    (repo : Repository) (bcrypt : Bcrypt) (name password : Text) (db : repo.Db) (profile : Profile)
    → login repo bcrypt name password db ≡ ok profile
    → repo.get_by_username name db ≡ ok profile
unfolding login
login-get repo bcrypt name password db profile e = ground arith

module _ (p : ℕ) (m : Message) (s : Store) (h : IsSound s) (opened : (s.queue_at p).closed ≡ false)
    (space : has_room (s.queue_at p) ≡ true) where
  refused :
      (message : Text) (type : ErrorType)
      → Locked (send_error p message m.request_id type (with_mu writing s))
  refused message type =
      Queues-Locked s _ h
        (send_error-Queues p (with_mu writing s) opened space message m.request_id type)

  refuse_login-Locked : (e : UserError) → Locked (refuse_login p m e (with_mu writing s))
  unfolding refuse_login
  refuse_login-Locked user_not_found = refused invalid_login authorization
  refuse_login-Locked invalid_password = refused invalid_login authorization
  refuse_login-Locked _ = refused internal_server_text internal_server_error

  accept_login-Locked :
      (id w : Text) (profile : Profile)
      → lookup s.clients id ≡ some p
      → profile.username ≡ w
      → Locked (accept_login p m w profile (with_mu writing s))
  unfolding accept_login add_client_to_user allocate_user add_client
  accept_login-Locked id w profile registered named =
      elim (Bool-cases (s.client_at p).authenticated) [
        | inl again ↦ rw again (refused already_logged_in validation)
        | inr fresh ↦
            rw (fresh, named, authenticate_fresh w (s.client_at p) fresh)
              (elim (Option-cases (lookup s.sessions w)) [
                | inl absent ↦ rw absent (
                    Queues-Locked (started p w profile s) _
                      (record {
                        conns =
                            started-Conns s h.conns p w profile absent id registered fresh named;
                        rooms = started-Rooms s h.conns p w profile absent named h.rooms;
                        populated = h.populated;
                      })
                      (send_response-Queues p (with_mu writing (started p w profile s)) opened space
                        (welcome_user w) m.request_id))
                | inr (u, found) ↦ rw found (
                    Queues-Locked (attached_to u p w s) _
                      (record {
                        conns = attached_to-Conns s h.conns p id w registered fresh u found;
                        rooms = attached_to-Rooms s u p w h.rooms;
                        populated = h.populated;
                      })
                      (send_response-Queues p (with_mu writing (attached_to u p w s)) opened space
                        (welcome_user w) m.request_id))
              ])
      ]

module _ (repo : Repository) (bcrypt : Bcrypt) (db : repo.Db) (law : FindsByName repo) (m : Message)
    (whole : HasWholeToken m) (s : Store) (h : IsSound s) (p : ℕ)
    (registered : lookup s.clients m.client_id ≡ some p)
    (space : has_room (s.queue_at p) ≡ true) where
  opened : (s.queue_at p).closed ≡ false
  opened = h.conns.open_queue m.client_id p registered

  login_result-Locked :
      (w password : Text) (r : Result Profile)
      → login repo bcrypt w password db ≡ r
      → Locked (login_result p m w r (with_mu writing s))
  unfolding login_result
  login_result-Locked w password (err e) eq = refuse_login-Locked p m s h opened space e
  login_result-Locked w password (ok profile) eq =
      accept_login-Locked p m s h opened space m.client_id w profile registered
        (law w db profile (login-get repo bcrypt w password db profile eq))

  login_parsed-Locked :
      (r : Parsed)
      → r ≢ out_of_range
      → Locked (login_parsed repo bcrypt db p m r (with_mu writing s))
  unfolding login_parsed
  login_parsed-Locked out_of_range ne = absurd (ne refl)
  login_parsed-Locked not_ok ne =
      refused p m s h opened space missing_or_invalid_credentials authorization
  login_parsed-Locked (credentials w password) ne = login_result-Locked w password _ refl

  login_client-Locked : Locked (login_client repo bcrypt db p m (with_mu writing s))
  unfolding login_client
  login_client-Locked = elim whole [
    | inl missing ↦ rw missing (refused p m s h opened space missing_token authorization)
    | inr long ↦ elim (Bool-cases (text_beq m.request.token [])) [
      | inl empty ↦ rw empty (refused p m s h opened space missing_token authorization)
      | inr some_token ↦ rw some_token (
          login_parsed-Locked (parse_basic_auth m.request.token)
            (λ e. absurd (omega (arith, (parse_panics_iff m.request.token).0 e))))
    ]
  ]

Locked-unlock : (o : Outcome (Unit {0})) → Locked o → Returns (continue o (λ _. unlock)) IsValid
Locked-unlock o (t, h, e) = rw e (IsSound-IsValid h)

-- Logging in keeps the invariant.
pub handle_login-IsValid :
    (repo : Repository) (bcrypt : Bcrypt) (db : repo.Db) (m : Message) (s : Store)
    → FindsByName repo
    → HasWholeToken m
    → IsSound s
    → HasRoom s m.client_id
    → Returns (handle_login repo bcrypt db m (with_mu free s)) IsValid
unfolding handle_login
handle_login-IsValid repo bcrypt db m s law whole h room =
    elim (Option-cases (lookup s.clients m.client_id)) [
      | inl none_found ↦ rw none_found (IsSound-IsValid h)
      | inr (p, e) ↦
          rw e (Locked-unlock _ (login_client-Locked repo bcrypt db law m whole s h p e (room p e)))
    ]
