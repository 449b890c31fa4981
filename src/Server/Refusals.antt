-- ===== src/Server/Refusals.antt =====
-- Requests that the handlers turn down: the sender gets one answer, and nothing else changes.
use room_chat.Prelude.{
  ℕ, ◌≡◌, ◌≢◌, ◌⊎◌, ◌∙◌, refl, Bool, true, false, Option, some, none, Text, text_beq, [], text_eq,
  nat_eq, arith, inl, inr, Bool-cases, Option-cases,
}
use room_chat.Prelude.Sets.{contains}
use room_chat.Prelude.Maps.{lookup, update}
use room_chat.Protocol.{Message, MessageAction, ErrorType, validation, forbidden}
use room_chat.Connection.{push, has_room}
use room_chat.User.{Profile}
use room_chat.Elastic.{SearchClient}
use room_chat.Auth.{credentials, Parsed, not_ok, out_of_range, parse_basic_auth}
use room_chat.Auth.RoundTrip.{parse_panics_iff}
use room_chat.Users.{
  Repository, Bcrypt, Result, ok, err, login, UserError, user_not_found, invalid_password,
}
use room_chat.Store.{Store, Outcome, done, free, writing, continue, send, unlock}
use room_chat.Server.Replies.{send_error, error_message, not_a_member_of_this}
use room_chat.Server.Messages.{send_in_channel, handle_send_message}
use room_chat.Server.Login.{
  refuse_login, accept_login, login_result, login_parsed, login_client, handle_login,
}
use room_chat.Server.Invariant.{is_member, members_of}
use room_chat.Server.Steps.Valid.{with_mu, IsSound}
use room_chat.Server.Keeps.LoggingIn.{HasWholeToken}

-- The store with one message more in the queue of `p`.
abbrev pub answered : ℕ → Message → Store → Store
answered p x s = record s { queue_at = update s.queue_at p (push x (s.queue_at p)) }

-- `ErrorType` of the answer to who is no member: it tells whether the channel exists.
abbrev pub refusal_type : Option ℕ → ErrorType
refusal_type none = validation
refusal_type (some c) = forbidden

pub send-answered :
    (p : ℕ) (x : Message) (s : Store)
    → (s.queue_at p).closed ≡ false
    → has_room (s.queue_at p) ≡ true
    → send p x s ≡ done tt (answered p x s)
unfolding send
send-answered p x s opened space = rw (opened, space)

pub members-is_member :
    (s : Store) (n w : Text) (c : ℕ)
    → lookup s.rooms n ≡ some c
    → contains (s.channel_at c).users w ≡ is_member s n w
members-is_member s n w c room = rw (room, members_of)

-- A message of a registered connection whose queue has room, to a channel of which its user is no
-- member, or that does not exist: the sender gets the error, of a type that tells the two apart,
-- and nothing else changes.
pub handle_send_message-refuses :
    (client : SearchClient) (m : Message) (s : Store) (p : ℕ)
    → IsSound s
    → lookup s.clients m.client_id ≡ some p
    → has_room (s.queue_at p) ≡ true
    → is_member s m.channel (s.client_at p).user ≡ false
    → handle_send_message client m (with_mu free s)
      ≡ done tt (
          with_mu free (
            answered p
              (error_message
                (not_a_member_of_this m.channel)
                m.request_id
                (refusal_type (lookup s.rooms m.channel)))
              s))
unfolding handle_send_message send_in_channel send_error
handle_send_message-refuses client m s p h registered space outsider =
    let opened = h.conns.open_queue m.client_id p registered in
    elim (Option-cases (lookup s.rooms m.channel)) [
      | inl absent ↦ rw (registered, absent) (send-answered p _ (with_mu free s) opened space)
      | inr (c, room) ↦
          rw
            (registered, room, members-is_member s m.channel (s.client_at p).user c room ∙ outsider)
            (send-answered p _ (with_mu free s) opened space)
    ]

-- A connection that is logged in, or credentials that are refused.
abbrev pub IsRefused : (repo : Repository) → Bcrypt → repo.Db → Message → Bool → Type 0
IsRefused repo bcrypt db m authenticated =
    (authenticated ≡ true)
    ⊎ ((name password : Text) (profile : Profile)
        → parse_basic_auth m.request.token ≡ credentials name password
        → login repo bcrypt name password db ≢ ok profile)

-- The outcome of such a login, with the lock held.
abbrev Answers : ℕ → Store → Outcome (Unit {0}) → Type 0
Answers p s o =
    (x : Message) × (x.action ≡ MessageAction.error)
    × (o ≡ done tt (with_mu writing (answered p x s)))

module _ (repo : Repository) (bcrypt : Bcrypt) (db : repo.Db) (m : Message) (s : Store) (p : ℕ)
    (opened : (s.queue_at p).closed ≡ false) (space : has_room (s.queue_at p) ≡ true)
    (whole : HasWholeToken m)
    (refused : IsRefused repo bcrypt db m (s.client_at p).authenticated) where
  error-Answers :
      (message : Text) (type : ErrorType)
      → Answers p s (send_error p message m.request_id type (with_mu writing s))
  unfolding send_error error_message
  error-Answers message type = (
    error_message message m.request_id type,
    refl,
    send-answered p (error_message message m.request_id type) (with_mu writing s) opened space,
  )

  refuse_login-Answers : (e : UserError) → Answers p s (refuse_login p m e (with_mu writing s))
  unfolding refuse_login
  refuse_login-Answers user_not_found = error-Answers _ _
  refuse_login-Answers invalid_password = error-Answers _ _
  refuse_login-Answers _ = error-Answers _ _

  login_result-Answers :
      (name password : Text) (r : Result Profile)
      → parse_basic_auth m.request.token ≡ credentials name password
      → login repo bcrypt name password db ≡ r
      → Answers p s (login_result p m name r (with_mu writing s))
  unfolding login_result accept_login
  login_result-Answers name password (err e) parsed eq = refuse_login-Answers e
  login_result-Answers name password (ok profile) parsed eq = elim refused [
    | inl again ↦ rw again (error-Answers _ _)
    | inr wrong ↦ absurd (wrong name password profile parsed eq)
  ]

  login_parsed-Answers :
      (r : Parsed)
      → parse_basic_auth m.request.token ≡ r
      → r ≢ out_of_range
      → Answers p s (login_parsed repo bcrypt db p m r (with_mu writing s))
  unfolding login_parsed
  login_parsed-Answers out_of_range parsed ne = absurd (ne refl)
  login_parsed-Answers not_ok parsed ne = error-Answers _ _
  login_parsed-Answers (credentials name password) parsed ne =
      login_result-Answers name password _ parsed refl

  login_client-Answers : Answers p s (login_client repo bcrypt db p m (with_mu writing s))
  unfolding login_client
  login_client-Answers = elim whole [
    | inl missing ↦ rw missing (error-Answers _ _)
    | inr long ↦ elim (Bool-cases (text_beq m.request.token [])) [
      | inl empty ↦ rw empty (error-Answers _ _)
      | inr some_token ↦ rw some_token (
          login_parsed-Answers (parse_basic_auth m.request.token) refl
            (λ e. absurd (omega (arith, (parse_panics_iff m.request.token).0 e))))
    ]
  ]

Answers-unlock :
    (p : ℕ) (s : Store) (o : Outcome (Unit {0}))
    → Answers p s o
    → (x : Message) × (x.action ≡ MessageAction.error)
      × (continue o (λ _. unlock) ≡ done tt (with_mu free (answered p x s)))
Answers-unlock p s o (x, is_error, e) = (x, is_error, rw e)

-- A login on a registered connection whose queue has room, that is logged in already, or with
-- credentials that are missing, malformed or refused, whose token is absent or at least as long as
-- the prefix: the sender gets one error, and nothing else changes, the login state of the
-- connection included.
pub handle_login-refuses :
    (repo : Repository) (bcrypt : Bcrypt) (db : repo.Db) (m : Message) (s : Store) (p : ℕ)
    → IsSound s
    → lookup s.clients m.client_id ≡ some p
    → has_room (s.queue_at p) ≡ true
    → HasWholeToken m
    → IsRefused repo bcrypt db m (s.client_at p).authenticated
    → (x : Message) × (x.action ≡ MessageAction.error)
      × (handle_login repo bcrypt db m (with_mu free s) ≡ done tt (with_mu free (answered p x s)))
unfolding handle_login
handle_login-refuses repo bcrypt db m s p h registered space whole refused = rw registered (
    Answers-unlock p s _ (
      login_client-Answers repo bcrypt db m s p (h.conns.open_queue m.client_id p registered) space
        whole refused))
