-- ===== src/Server/Logins/Accepting.antt =====
-- What handleLogin does to the logins.
use room_chat.Prelude.{
  ℕ, ◌≡◌, ◌∙◌, sym, ap, refl, Bool, true, false, Option, none, some, Text, text_beq, [], text_eq,
  nat_eq, Bool-cases, inl, inr, arith, if◌then◌else◌,
}
use room_chat.Prelude.Maps.{lookup, update}
use room_chat.Protocol.{Message, authorization}
use room_chat.Connection.{Client, authenticate}
use room_chat.User.{Profile}
use room_chat.Auth.{Parsed, credentials, not_ok, out_of_range, parse_basic_auth}
use room_chat.Users.{
  UserError, user_not_found, invalid_password, Result, ok, err, Repository, Bcrypt,
}
use room_chat.Sessions.{add_client_to_user, allocate_user}
use room_chat.Store.{Store, Exec, Outcome, done, continue, free, writing, unlock}
use room_chat.Server.Steps.Valid.{with_mu}
use room_chat.Server.Replies.{missing_token, send_error}
use room_chat.Server.Login.{
  refuse_login, accept_login, login_result, login_parsed, login_client, handle_login,
}
use room_chat.Server.Effects.{
  Ends, done-Ends, Ends-continue, Ends-option, unlock-Ends, send_error-Ends, send_response-Ends,
}
use room_chat.Server.Logins.{
  accepted_result, accepted_parsed, accepted_name, SameClients, SameClients-Allows, LoggedAs,
  update_same, SameClients-LoggedAs, Ends-mono,
}

started-SameClients :
    (w : Text) (p : ℕ) (profile : Profile) (s : Store)
    → Ends (add_client_to_user w p profile s) (SameClients s)
unfolding add_client_to_user allocate_user
started-SameClients w p profile s =
    Ends-continue SameClients-Allows
      (Ends-option SameClients-Allows (lookup s.sessions w) _ _ s
        (done-Ends (record { registry = refl; states = refl; shut = λ q. refl }))
        (λ u. done-Ends (record { registry = refl; states = refl; shut = λ q. refl })))
      (λ u t. done-Ends (record { registry = refl; states = refl; shut = λ q. refl }))

authenticate_again : (w : Text) (c : Client) → c.authenticated ≡ true → authenticate w c ≡ c
unfolding authenticate
authenticate_again w c e = ground (arith, e)

if_true-Ends :
    {P : Store → Type 0} (b : Bool) (m n : Exec (Unit {0})) (s : Store)
    → b ≡ true
    → Ends (m s) P
    → Ends ((if b then m else n) s) P
if_true-Ends true m n s e h = h
if_true-Ends false m n s e h = absurd cc

if_false-Ends :
    {P : Store → Type 0} (b : Bool) (m n : Exec (Unit {0})) (s : Store)
    → b ≡ false
    → Ends (n s) P
    → Ends ((if b then m else n) s) P
if_false-Ends true m n s e h = absurd cc
if_false-Ends false m n s e h = h

module _ (p : ℕ) (m : Message) where
  -- A run that sends an error, or nothing, logs nobody in.
  same-LoggedAs :
      (o : Outcome (Unit {0})) (s : Store) → Ends o (SameClients s) → Ends o (LoggedAs p none s)
  same-LoggedAs o s h = Ends-mono o (SameClients s) (LoggedAs p none s) (SameClients-LoggedAs p s) h

  refused-LoggedAs : (e : UserError) (s : Store) → Ends (refuse_login p m e s) (LoggedAs p none s)
  unfolding refuse_login
  refused-LoggedAs user_not_found s =
      same-LoggedAs _ s (send_error-Ends SameClients-Allows p _ _ _ s)
  refused-LoggedAs invalid_password s =
      same-LoggedAs _ s (send_error-Ends SameClients-Allows p _ _ _ s)
  refused-LoggedAs _ s = same-LoggedAs _ s (send_error-Ends SameClients-Allows p _ _ _ s)

  again-LoggedAs :
      (name : Text) (s : Store) (o : Outcome (Unit {0}))
      → (s.client_at p).authenticated ≡ true
      → Ends o (SameClients s)
      → Ends o (LoggedAs p (some name) s)
  again-LoggedAs name s o again h =
      Ends-mono o (SameClients s) (LoggedAs p (some name) s)
        (λ t h. (
          h.registry,
          h.states
              ∙ sym (update_same s.client_at p)
              ∙ ap (λ c. update s.client_at p c)
                  (sym (authenticate_again name (s.client_at p) again)),
          h.shut,
        ))
        h

  accepted-LoggedAs :
      (username : Text) (profile : Profile) (s : Store)
      → Ends (accept_login p m username profile s) (LoggedAs p (some profile.username) s)
  unfolding accept_login
  accepted-LoggedAs username profile s = elim (Bool-cases (s.client_at p).authenticated) [
    | inl again ↦
        again-LoggedAs profile.username s _ again
          (if_true-Ends _ _ _ s again (send_error-Ends SameClients-Allows p _ _ _ s))
    | inr fresh ↦ if_false-Ends _ _ _ s fresh (
        Ends-mono _ _ (LoggedAs p (some profile.username) s) (λ t h. (h.registry, h.states, h.shut))
          (Ends-continue SameClients-Allows (started-SameClients username p profile _)
            (λ u t. send_response-Ends SameClients-Allows p _ _ t)))
  ]

  module _ (repo : Repository) (bcrypt : Bcrypt) (db : repo.Db) where
    result-LoggedAs :
        (username : Text) (r : Result Profile) (s : Store)
        → Ends (login_result p m username r s) (LoggedAs p (accepted_result r) s)
    unfolding login_result
    result-LoggedAs username (err e) s = refused-LoggedAs e s
    result-LoggedAs username (ok profile) s = accepted-LoggedAs username profile s

    parsed-LoggedAs :
        (r : Parsed) (s : Store)
        → Ends
            (login_parsed repo bcrypt db p m r s)
            (LoggedAs p (accepted_parsed repo bcrypt db r) s)
    unfolding login_parsed
    parsed-LoggedAs out_of_range s = record { at = tt }
    parsed-LoggedAs not_ok s = same-LoggedAs _ s (send_error-Ends SameClients-Allows p _ _ _ s)
    parsed-LoggedAs (credentials username password) s = result-LoggedAs username _ s

    client-LoggedAs :
        (s : Store)
        → Ends
            (login_client repo bcrypt db p m s)
            (LoggedAs p (accepted_name repo bcrypt db m.request.token) s)
    unfolding login_client
    client-LoggedAs s = tokened (text_beq m.request.token []) s
      where
        tokened :
            (absent : Bool) (s : Store)
            → Ends
                ((if absent
                    then send_error p missing_token m.request_id authorization
                    else login_parsed repo bcrypt db p m (parse_basic_auth m.request.token))
                  s)
                (LoggedAs p
                  (if absent
                    then none
                    else accepted_parsed repo bcrypt db (parse_basic_auth m.request.token))
                  s)
        tokened true s = same-LoggedAs _ s (send_error-Ends SameClients-Allows p _ _ _ s)
        tokened false s = parsed-LoggedAs (parse_basic_auth m.request.token) s

-- A run after which the logins do not change any more.
then-LoggedAs :
    (p : ℕ) (name : Option Text) (s : Store) (o : Outcome (Unit {0})) (f : Exec (Unit {0}))
    → Ends o (LoggedAs p name s)
    → ((t : Store) → Ends (f t) (SameClients t))
    → Ends (continue o (λ _. f)) (LoggedAs p name s)
then-LoggedAs p name s (done a t) f h same =
    Ends-mono (f t) (SameClients t) (LoggedAs p name s)
      (λ u k. (k.registry ∙ h.at.0, k.states ∙ h.at.1, λ q. k.shut q ∙ h.at.2 q)) (same t)
then-LoggedAs p name s (Outcome.panicked e) f h same = record { at = tt }
then-LoggedAs p name s (Outcome.waits w) f h same = record { at = tt }

module _ (repo : Repository) (bcrypt : Bcrypt) (db : repo.Db) (m : Message) (s : Store) where
  pub handle_login-LoggedAs :
      (p : ℕ)
      → lookup s.clients m.client_id ≡ some p
      → Ends
          (handle_login repo bcrypt db m (with_mu free s))
          (LoggedAs p (accepted_name repo bcrypt db m.request.token) s)
  unfolding handle_login
  handle_login-LoggedAs p registered = rw registered (
      then-LoggedAs p (accepted_name repo bcrypt db m.request.token) s _ unlock
        (client-LoggedAs p m repo bcrypt db (with_mu writing s))
        (λ t. unlock-Ends SameClients-Allows t))

  pub handle_login-unknown :
      lookup s.clients m.client_id ≡ none
      → Ends (handle_login repo bcrypt db m (with_mu free s)) (SameClients s)
  unfolding handle_login
  handle_login-unknown unknown =
      rw unknown (done-Ends (record { registry = refl; states = refl; shut = λ q. refl }))
