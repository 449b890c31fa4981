-- ===== src/Server/Admission.antt =====
-- Logins that succeed.
use room_chat.Prelude.{
  ℕ, ◌≡◌, ◌∙◌, refl, sym, ap, true, false, some, Text, text_beq, [], text_eq, nat_eq, arith, ◌≢◌,
  ◌≤◌, ◌∷◌, length, ltb, Bool-cases, inl, inr, Option-cases, ==-self,
}
use room_chat.Prelude.Maps.{lookup}
use room_chat.Protocol.{Message}
use room_chat.Connection.{has_room}
use room_chat.User
use room_chat.User.{Profile}
use room_chat.Auth.{Parsed, credentials, not_ok, out_of_range, parse_basic_auth}
use room_chat.Auth.RoundTrip.{parse_panics_iff}
use room_chat.Users.{Repository, Bcrypt, ok, login}
use room_chat.Store.{Store, Outcome, done, free, writing, continue, unlock}
use room_chat.Sessions.{add_client_to_user, allocate_user}
use room_chat.Server.Replies.{welcome_user}
use room_chat.Server.Login.{accept_login, login_result, login_parsed, login_client, handle_login}
use room_chat.Server.Invariant.{IsValid, is_attached}
use room_chat.Server.Steps.Attach.{attached_to, started}
use room_chat.Server.Steps.Sends.{Queues}
use room_chat.Server.Steps.Valid.{Returns, with_mu, HasRoom, IsSound, send_response-Queues}
use room_chat.Server.Keeps.LoggingIn.{
  FindsByName, handle_login-IsValid, authenticate_fresh, login-get,
}

-- The registered clients are the same, and `p` has logged in as `w`.
abbrev Named : ℕ → Text → Store → Store → Type 0
Named p w s t =
    (t.clients ≡ s.clients)
    × (t.client_at p ≡ record (s.client_at p) { user = w; authenticated = true })

Queues-Named :
    (p : ℕ) (w : Text) (s t : Store) (o : Outcome (Unit {0}))
    → Named p w s t
    → Queues t o
    → (t' : Store) × (o ≡ done tt t') × (t'.mu ≡ t.mu) × Named p w s t'
Queues-Named p w s t o named (q, e, same) = (record t { queue_at = q }, e, refl, named)

module _ (p : ℕ) (m : Message) (s : Store) (opened : (s.queue_at p).closed ≡ false)
    (space : has_room (s.queue_at p) ≡ true) where
  accept_login-Named :
      (w : Text) (profile : Profile)
      → profile.username ≡ w
      → (s.client_at p).authenticated ≡ false
      → (t : Store) × (accept_login p m w profile (with_mu writing s) ≡ done tt t)
        × (t.mu ≡ writing)
        × Named p w s t
  unfolding accept_login add_client_to_user allocate_user User.add_client
  accept_login-Named w profile named fresh =
      rw (fresh, named, authenticate_fresh w (s.client_at p) fresh)
        (elim (Option-cases (lookup s.sessions w)) [
          | inl absent ↦ rw absent (
              Queues-Named p w s (with_mu writing (started p w profile s)) _
                (refl, rw (==-self {A = ℕ} p))
                (send_response-Queues p (with_mu writing (started p w profile s)) opened space
                  (welcome_user w) m.request_id))
          | inr (u, found) ↦ rw found (
              Queues-Named p w s (with_mu writing (attached_to u p w s)) _
                (refl, rw (==-self {A = ℕ} p))
                (send_response-Queues p (with_mu writing (attached_to u p w s)) opened space
                  (welcome_user w) m.request_id))
        ])

-- What the login leaves: a valid store, in which `p` is logged in as `w` and is a connection of
-- that user's session.
abbrev pub Admits : ℕ → Text → Store → Store → Type 0
Admits p w s t =
    IsValid t
    × (t.client_at p ≡ record (s.client_at p) { user = w; authenticated = true })
    × (is_attached t w p ≡ true)

Named-Admits :
    (p : ℕ) (id w : Text) (s t : Store)
    → lookup s.clients id ≡ some p
    → Named p w s t
    → IsValid t
    → Admits p w s t
Named-Admits p id w s t registered (same, named) v = (
  v,
  named,
  sym (ap (λ c. is_attached t c.user p) named)
      ∙ sym (v.conns.logged_in id p (rw same registered))
      ∙ ap (λ c. c.authenticated) named,
)

Returns-unlocked :
    (r o : Outcome (Unit {0})) (t : Store) (P : Store → Type 0)
    → r ≡ continue o (λ _. unlock)
    → o ≡ done tt t
    → t.mu ≡ writing
    → (IsValid (with_mu free t) → P (with_mu free t))
    → Returns r IsValid
    → Returns r P
Returns-unlocked r o t P run e held finish valid =
    rw (run, e, held) (finish (rw (run, e, held) at valid))

not_out_of_range : (r : Parsed) (w password : Text) → r ≡ credentials w password → r ≢ out_of_range
not_out_of_range out_of_range w password e = cc
not_out_of_range not_ok w password e = cc
not_out_of_range (credentials u q) w password e = λ z. cc

-- Credentials come from a token that is as long as the prefix.
parsed_long :
    (token w password : Text) → parse_basic_auth token ≡ credentials w password → 6 ≤ length token
parsed_long token w password parsed = elim (Bool-cases (ltb (length token) 6)) [
  | inl short ↦ absurd (
      not_out_of_range (parse_basic_auth token) w password parsed
        ((parse_panics_iff token).1 (ground arith)))
  | inr long ↦ ground arith
]

some_text : (t : Text) → 6 ≤ length t → text_beq t [] ≡ false
some_text [] h = absurd (omega (arith, h))
some_text (c ∷ t) h = refl

module _ (repo : Repository) (bcrypt : Bcrypt) (db : repo.Db) (m : Message) (p : ℕ)
    (w password : Text) (profile : Profile)
    (parsed : parse_basic_auth m.request.token ≡ credentials w password)
    (accepted : login repo bcrypt w password db ≡ ok profile) where
  login_client-accept :
      (s : Store) → login_client repo bcrypt db p m s ≡ accept_login p m w profile s
  unfolding login_client login_parsed login_result
  login_client-accept s =
      rw (
        some_text m.request.token (parsed_long m.request.token w password parsed),
        parsed,
        accepted,
      )

  handle_login-accept :
      (s : Store)
      → lookup s.clients m.client_id ≡ some p
      → handle_login repo bcrypt db m (with_mu free s)
        ≡ continue (accept_login p m w profile (with_mu writing s)) (λ _. unlock)
  unfolding handle_login
  handle_login-accept s registered = rw (registered, login_client-accept (with_mu writing s))

-- If the repository finds users by their name: a login with credentials that the service accepts,
-- on a registered connection that is not logged in and whose queue has room, is handled to its end
-- and leaves a valid store, in which the connection has the user's name, is logged in, and belongs
-- to the user's session.
pub handle_login-Admits :
    (repo : Repository) (bcrypt : Bcrypt) (db : repo.Db) (m : Message) (s : Store) (p : ℕ)
    (w password : Text) (profile : Profile)
    → FindsByName repo
    → IsSound s
    → HasRoom s m.client_id
    → lookup s.clients m.client_id ≡ some p
    → (s.client_at p).authenticated ≡ false
    → parse_basic_auth m.request.token ≡ credentials w password
    → login repo bcrypt w password db ≡ ok profile
    → Returns (handle_login repo bcrypt db m (with_mu free s)) (Admits p w s)
handle_login-Admits repo bcrypt db m s p w password profile law h room registered fresh parsed
      accepted =
    let (t, e, held, named) =
      accept_login-Named p m s (h.conns.open_queue m.client_id p registered) (room p registered) w
        profile (law w db profile (login-get repo bcrypt w password db profile accepted)) fresh in
    let whole = inr (parsed_long m.request.token w password parsed) in
    Returns-unlocked _ _ t (Admits p w s)
      (handle_login-accept repo bcrypt db m p w password profile parsed accepted s registered) e
      held (Named-Admits p m.client_id w s (with_mu free t) registered named)
      (handle_login-IsValid repo bcrypt db m s law whole h room)
