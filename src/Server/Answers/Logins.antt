-- ===== src/Server/Answers/Logins.antt =====
-- The handler of a login answers the request once.
use room_chat.Prelude.{
  ℕ, ◌≡◌, refl, Bool, true, false, some, Text, text_beq, [], text_eq, nat_eq, if◌then◌else◌,
}
use room_chat.Prelude.Maps.{lookup}
use room_chat.Protocol.{Message}
use room_chat.Connection.{authenticate}
use room_chat.User.{Profile}
use room_chat.Auth.{Parsed, credentials, not_ok, out_of_range, parse_basic_auth}
use room_chat.Users.{
  UserError, user_not_found, invalid_password, Result, ok, err, Repository, Bcrypt,
}
use room_chat.Store.{Store, free, writing, Exec, set_client}
use room_chat.Server.Login.{
  refuse_login, accept_login, login_result, login_parsed, login_client, handle_login,
}
use room_chat.Server.Steps.Valid.{with_mu}
use room_chat.Server.Effects.{Ends}
use room_chat.Server.Answers.{
  OneAnswer, from-OneAnswer, before-OneAnswer, after-OneAnswer, send_error-OneAnswer,
  send_response-OneAnswer,
}
use room_chat.Server.Answers.Quiet.{unlock-NoAnswer, add_client_to_user-NoAnswer}

module _ (p : ℕ) (m : Message) where
  refuse_login-OneAnswer :
      (e : UserError) (s : Store) → Ends (refuse_login p m e s) (OneAnswer p m.request_id s)
  unfolding refuse_login
  refuse_login-OneAnswer user_not_found s = send_error-OneAnswer p _ _ _ s
  refuse_login-OneAnswer invalid_password s = send_error-OneAnswer p _ _ _ s
  refuse_login-OneAnswer _ s = send_error-OneAnswer p _ _ _ s

  if-OneAnswer :
      (b : Bool) (f g : Exec (Unit {0})) (s : Store)
      → Ends (f s) (OneAnswer p m.request_id s)
      → Ends (g s) (OneAnswer p m.request_id s)
      → Ends ((if b then f else g) s) (OneAnswer p m.request_id s)
  if-OneAnswer true f g s first second = first
  if-OneAnswer false f g s first second = second

  accept_login-OneAnswer :
      (w : Text) (profile : Profile) (s : Store)
      → Ends (accept_login p m w profile s) (OneAnswer p m.request_id s)
  unfolding accept_login
  accept_login-OneAnswer w profile s =
      if-OneAnswer (s.client_at p).authenticated _ _ s (send_error-OneAnswer p _ _ _ s) (
        from-OneAnswer p m.request_id s (set_client p (authenticate profile.username) s) _
          (record { same = λ q r. refl })
          (before-OneAnswer p m.request_id _ _ _ (add_client_to_user-NoAnswer w p profile _)
            (λ u t _. send_response-OneAnswer p _ _ t)))

  module _ (repo : Repository) (bcrypt : Bcrypt) (db : repo.Db) where
    login_result-OneAnswer :
        (w : Text) (r : Result Profile) (s : Store)
        → Ends (login_result p m w r s) (OneAnswer p m.request_id s)
    unfolding login_result
    login_result-OneAnswer w (err e) s = refuse_login-OneAnswer e s
    login_result-OneAnswer w (ok profile) s = accept_login-OneAnswer w profile s

    login_parsed-OneAnswer :
        (r : Parsed) (s : Store)
        → Ends (login_parsed repo bcrypt db p m r s) (OneAnswer p m.request_id s)
    unfolding login_parsed
    login_parsed-OneAnswer out_of_range s = record { at = tt }
    login_parsed-OneAnswer not_ok s = send_error-OneAnswer p _ _ _ s
    login_parsed-OneAnswer (credentials w password) s = login_result-OneAnswer w _ s

    pub handle_login-OneAnswer :
        (s : Store)
        → lookup s.clients m.client_id ≡ some p
        → Ends
            (handle_login repo bcrypt db m (with_mu free s))
            (OneAnswer p m.request_id (with_mu free s))
    unfolding handle_login login_client
    handle_login-OneAnswer s known = rw known (
        after-OneAnswer p m.request_id (with_mu free s) _ _
          (from-OneAnswer p m.request_id (with_mu free s) (with_mu writing s) _
            (record { same = λ q r. refl })
            (if-OneAnswer (text_beq m.request.token []) _ _ (with_mu writing s)
              (send_error-OneAnswer p _ _ _ _)
              (login_parsed-OneAnswer (parse_basic_auth m.request.token) _)))
          (λ _ t. unlock-NoAnswer t))
