-- ===== src/Server/Logins.antt =====
-- What the events of `Run` do to the logins: who is logged in on which connection.
pub mod Accepting
use room_chat.Prelude.{
  ℕ, ◌≡◌, ◌∙◌, sym, ap, refl, fun_ext, Bool, true, false, Option, none, some, Text, text_beq, [],
  text_eq, nat_eq, nat_beq_iff, Bool-cases, inl, inr, arith, if◌then◌else◌,
}
use room_chat.Prelude.Maps.{lookup, update}
use room_chat.Protocol.{Message, authorization}
use room_chat.Connection.{Client, authenticate}
use room_chat.User.{Profile}
use room_chat.Auth.{Parsed, credentials, not_ok, out_of_range, parse_basic_auth}
use room_chat.Users.{
  UserError, user_not_found, invalid_password, Result, ok, err, Repository, Bcrypt, login,
}
use room_chat.Sessions.{add_client_to_user, allocate_user}
use room_chat.Store.{Store, Exec, Outcome, done, continue, free, writing, unlock}
use room_chat.Server.Steps.Valid.{with_mu}
use room_chat.Server.Replies.{missing_token, send_error}
use room_chat.Server.Login.{
  refuse_login, accept_login, login_result, login_parsed, login_client, handle_login,
}
use room_chat.Server.Effects.{
  Ends, done-Ends, Allows, Ends-continue, Ends-option, unlock-Ends, send_error-Ends,
  send_response-Ends,
}

-- The name that a token gives, if its credentials are accepted.
abbrev pub accepted_result : Result Profile → Option Text
accepted_result (ok profile) = some profile.username
accepted_result (err e) = none

module _ (repo : Repository) (bcrypt : Bcrypt) (db : repo.Db) where
  abbrev pub accepted_parsed : Parsed → Option Text
  accepted_parsed (credentials username password) =
      accepted_result (login repo bcrypt username password db)
  accepted_parsed not_ok = none
  accepted_parsed out_of_range = none

  abbrev pub accepted_name : Text → Option Text
  accepted_name token = if text_beq token [] then none else accepted_parsed (parse_basic_auth token)

-- A connection's login state after a name was accepted.
abbrev pub logged : Option Text → Client → Client
logged none c = c
logged (some name) c = authenticate name c

-- No login state has changed, and no queue was closed.
pub record SameClients (s t : Store) : Type 0 where
  pub registry : t.clients ≡ s.clients
  pub states : t.client_at ≡ s.client_at
  pub shut : (q : ℕ) → (t.queue_at q).closed ≡ (s.queue_at q).closed

pub SameClients-Allows : Allows SameClients
SameClients-Allows = record {
  same = λ s. record { registry = refl; states = refl; shut = λ q. refl };
  trans = λ s t u st tu. record {
    registry = tu.registry ∙ st.registry;
    states = tu.states ∙ st.states;
    shut = λ q. tu.shut q ∙ st.shut q;
  };
  queued = λ p x s room. record { registry = refl; states = refl; shut = λ q. ground arith };
  locked = λ l s. record { registry = refl; states = refl; shut = λ q. refl };
}

-- The login state of `p` has changed so, and no queue was closed.
abbrev pub LoggedAs : ℕ → Option Text → Store → Store → Type 0
LoggedAs p name s t =
    (t.clients ≡ s.clients)
    × (t.client_at ≡ update s.client_at p (logged name (s.client_at p)))
    × ((q : ℕ) → (t.queue_at q).closed ≡ (s.queue_at q).closed)

pub update_same : (f : ℕ → Client) (p : ℕ) → update f p (f p) ≡ f
update_same f p = fun_ext λ q. ground (arith, nat_beq_iff p q)

pub SameClients-LoggedAs : (p : ℕ) (s t : Store) → SameClients s t → LoggedAs p none s t
SameClients-LoggedAs p s t h = (h.registry, h.states ∙ sym (update_same s.client_at p), h.shut)

pub Ends-mono :
    {A : Type 0} (o : Outcome A) (P Q : Store → Type 0)
    → ((t : Store) → P t → Q t)
    → Ends o P
    → Ends o Q
Ends-mono (done a t) P Q f h = done-Ends (f t h.at)
Ends-mono (Outcome.panicked e) P Q f h = record { at = tt }
Ends-mono (Outcome.waits w) P Q f h = record { at = tt }
