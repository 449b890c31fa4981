-- ===== src/Server/Effects/Logins.antt =====
-- Logging in.
use room_chat.Prelude.{text_eq, nat_eq, ℕ, [], Text, text_beq}
use room_chat.Prelude.Maps.{lookup}
use room_chat.Protocol.{Message}
use room_chat.Auth.{Parsed, credentials, not_ok, out_of_range, parse_basic_auth}
use room_chat.User.{Profile}
use room_chat.Users.{
  UserError, user_not_found, invalid_password, Result, ok, err, Repository, Bcrypt,
}
use room_chat.Store.{Store}
use room_chat.Sessions.{allocate_user, add_client_to_user}
use room_chat.Server.Login.{
  refuse_login, accept_login, login_result, login_parsed, login_client, handle_login,
}
use room_chat.Server.Effects.{
  Ends, done-Ends, Allows, AllowsUsers, AllowsLogin, Ends-after, Ends-continue, Ends-if,
  Ends-option, lock-Ends, unlock-Ends, send_error-Ends, send_response-Ends,
}

module _ {R : Store → Store → Type 0} (a : Allows R) where
  module _ (users : AllowsUsers R) (logs_in : AllowsLogin R) where
    pub add_client_to_user-Ends :
        (w : Text) (p : ℕ) (profile : Profile) (s : Store)
        → Ends (add_client_to_user w p profile s) (R s)
    unfolding add_client_to_user allocate_user
    add_client_to_user-Ends w p profile s =
        Ends-continue a
          (Ends-option a (lookup s.sessions w) _ _ s (done-Ends (users _ _ _ s))
            (λ u. done-Ends (a.same s)))
          (λ u t. done-Ends (users _ _ _ t))

    refuse_login-Ends :
        (p : ℕ) (m : Message) (e : UserError) (s : Store) → Ends (refuse_login p m e s) (R s)
    unfolding refuse_login
    refuse_login-Ends p m user_not_found s = send_error-Ends a p _ _ _ s
    refuse_login-Ends p m invalid_password s = send_error-Ends a p _ _ _ s
    refuse_login-Ends p m _ s = send_error-Ends a p _ _ _ s

    accept_login-Ends :
        (p : ℕ) (m : Message) (w : Text) (profile : Profile) (s : Store)
        → Ends (accept_login p m w profile s) (R s)
    unfolding accept_login
    accept_login-Ends p m w profile s =
        Ends-if a (s.client_at p).authenticated _ _ s (send_error-Ends a p _ _ _ s) (
          Ends-after a s _ _ (logs_in _ s) (
            Ends-continue a (add_client_to_user-Ends w p profile _)
              (λ u t. send_response-Ends a p _ _ t)))

    module _ (repo : Repository) (bcrypt : Bcrypt) (db : repo.Db) (m : Message) where
      login_result-Ends :
          (p : ℕ) (w : Text) (r : Result Profile) (s : Store) → Ends (login_result p m w r s) (R s)
      unfolding login_result
      login_result-Ends p w (err e) s = refuse_login-Ends p m e s
      login_result-Ends p w (ok profile) s = accept_login-Ends p m w profile s

      login_parsed-Ends :
          (p : ℕ) (r : Parsed) (s : Store) → Ends (login_parsed repo bcrypt db p m r s) (R s)
      unfolding login_parsed
      login_parsed-Ends p out_of_range s = record { at = tt }
      login_parsed-Ends p not_ok s = send_error-Ends a p _ _ _ s
      login_parsed-Ends p (credentials w password) s = login_result-Ends p w _ s

      login_client-Ends : (p : ℕ) (s : Store) → Ends (login_client repo bcrypt db p m s) (R s)
      unfolding login_client
      login_client-Ends p s =
          Ends-if a (text_beq m.request.token []) _ _ s (send_error-Ends a p _ _ _ s)
            (login_parsed-Ends p (parse_basic_auth m.request.token) s)

      -- Logging in.
      pub handle_login-Ends : (s : Store) → Ends (handle_login repo bcrypt db m s) (R s)
      unfolding handle_login
      handle_login-Ends s = Ends-continue a (lock-Ends a s) λ _ t.
          Ends-continue a
            (Ends-option a (lookup t.clients m.client_id) _ _ t (done-Ends (a.same t))
              (λ p. login_client-Ends p t))
            (λ _ u. unlock-Ends a u)
