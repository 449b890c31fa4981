-- ===== src/Server/Login.antt =====
-- internal/server/server.go, handleLogin. The deferred unlock runs on every return.
use room_chat.Prelude.{ℕ, [], Text, text_beq, none, some, if◌then◌else◌}
use room_chat.Protocol.{Message, authorization, validation, internal_server_error}
use room_chat.Auth.{Parsed, credentials, not_ok, out_of_range, parse_basic_auth}
use room_chat.Connection.{authenticate}
use room_chat.User.{Profile}
use room_chat.Users.{
  UserError, user_not_found, invalid_password, Result, ok, err, Repository, Bcrypt, login,
}
use room_chat.Store.{
  Exec, slice_out_of_range, ◌>>=◌, ◌>>◌, pure, panic, gets, modify, lock, unlock, set_client,
}
use room_chat.Sessions.{add_client_to_user}
use room_chat.Server.Replies.{
  missing_token, missing_or_invalid_credentials, internal_server_text, already_logged_in,
  invalid_login, welcome_user, send_error, send_response, find_client,
}

unfoldable pub refuse_login : ℕ → Message → UserError → Exec (Unit {0})
refuse_login p m user_not_found = send_error p invalid_login m.request_id authorization
refuse_login p m invalid_password = send_error p invalid_login m.request_id authorization
refuse_login p m _ = send_error p internal_server_text m.request_id internal_server_error

unfoldable pub accept_login : ℕ → Message → Text → Profile → Exec (Unit {0})
accept_login p m username profile = do
  client ← gets (λ s. s.client_at p)
  if client.authenticated then send_error p already_logged_in m.request_id validation else do
    modify (set_client p (authenticate profile.username))
    u ← add_client_to_user username p profile
    send_response p (welcome_user profile.username) m.request_id

-- The outcome of `Users.Login`.
unfoldable pub login_result : ℕ → Message → Text → Result Profile → Exec (Unit {0})
unfolding refuse_login accept_login
login_result p m username (err e) = refuse_login p m e
login_result p m username (ok profile) = accept_login p m username profile

module _ (repo : Repository) (bcrypt : Bcrypt) (db : repo.Db) where
  unfoldable pub login_parsed : ℕ → Message → Parsed → Exec (Unit {0})
  unfolding login_result
  login_parsed p m out_of_range = panic slice_out_of_range
  login_parsed p m not_ok = send_error p missing_or_invalid_credentials m.request_id authorization
  login_parsed p m (credentials username password) =
      login_result p m username (login repo bcrypt username password db)

  unfoldable pub login_client : ℕ → Message → Exec (Unit {0})
  unfolding login_parsed
  login_client p m =
      if text_beq m.request.token []
      then send_error p missing_token m.request_id authorization
      else login_parsed p m (parse_basic_auth m.request.token)

  unfoldable pub handle_login : Message → Exec (Unit {0})
  unfolding login_client
  handle_login m = do
    lock
    found ← find_client m.client_id
    elim found [ none ↦ pure tt | some p ↦ login_client p m ]
    unlock
