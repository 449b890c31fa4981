-- ===== src/System/Handling.antt =====
-- A message that `Run` handled to its end: its sender's queue had room and its token was whole, so
-- the store that it left is valid.
use room_chat.Prelude.{
  ℕ, ◌≡◌, ◌<◌, ◌≤◌, ◌⊎◌, refl, Bool, true, false, some, Text, [], ◌∷◌, length, ltb, ltb→lt, text_eq,
  arith, subst, sym, ap, Bool-cases, inl, inr,
}
use room_chat.Prelude.Maps.{lookup}
use room_chat.Protocol.{Message, MessageAction, join, leave, text_message, login}
use room_chat.Connection.{has_room}
use room_chat.Users.{Repository, Bcrypt}
use room_chat.Elastic.{SearchClient}
use room_chat.Store.{Store, Outcome, done, free}
use room_chat.Server.Login.{handle_login}
use room_chat.Server.Run.{dispatched, dispatch_action, handle_message, handle_event}
use room_chat.Server.Invariant.{IsValid}
use room_chat.Server.Steps.Valid.{with_mu, HasRoom, IsSound, IsValid-IsSound}
use room_chat.Server.Keeps.LoggingIn.{HasWholeToken}
use room_chat.Server.Events.{TokenIsWhole, IsReady}
use room_chat.Server.Effects.{Ends-done}
use room_chat.Server.Stalls.{handle_login-panics, handle_send_message-waits}
use room_chat.Server.Stalls.Full.{
  handle_join_channel-Never, handle_leave_channel-Never, handle_login-Never,
}

pub sender-HasRoom :
    (s : Store) (id : Text) (p : ℕ)
    → lookup s.clients id ≡ some p
    → has_room (s.queue_at p) ≡ true
    → HasRoom s id
sender-HasRoom s id p known room q found = ground (arith, known, found, room)

whole_cases :
    (token : Text) → (token ≡ []) ⊎ (((0 < length token) × (length token < 6)) ⊎ (6 ≤ length token))
whole_cases [] = inl refl
whole_cases (c ∷ token) = inr (elim (Bool-cases (ltb (length (c ∷ token)) 6)) [
  | inl short ↦ inl (omega arith, ltb→lt _ _ short)
  | inr long ↦ inr (ground arith)
])

abbrev final : Store → Outcome (Unit {0}) → Store
final s (done a t) = t
final s _ = s

-- The user whom a message names, unless it is a login, is online.
abbrev pub NamesOnline : Store → MessageAction → Text → Type 0
NamesOnline s act user = (act ≡ login) ⊎ ((u : ℕ) × (lookup s.sessions user ≡ some u))

unless_full : (b : Bool) → (b ≡ false → ⊥) → b ≡ true
unless_full true h = refl
unless_full false h = absurd (h refl)

module _ (repo : Repository) (bcrypt : Bcrypt) (search : SearchClient) (db : repo.Db) (m : Message)
    (s t : Store) (h : IsSound s) (p : ℕ) (known : lookup s.clients m.client_id ≡ some p) where
  login_done-HasWholeToken :
      handle_login repo bcrypt db m (with_mu free s) ≡ done tt t → HasWholeToken m
  login_done-HasWholeToken run = elim (whole_cases m.request.token) [
    | inl absent ↦ inl absent
    | inr (inr whole) ↦ inr whole
    | inr (inl (some_token, short)) ↦
        absurd (cc (run, handle_login-panics repo bcrypt db m s p known some_token short))
  ]

  -- The sender's queue had room: else the handler would wait.
  pub join_done-has_room :
      (u : ℕ)
      → lookup s.sessions m.user ≡ some u
      → dispatch_action repo bcrypt search db join m (with_mu free s) ≡ done tt t
      → has_room (s.queue_at p) ≡ true
  unfolding dispatch_action
  join_done-has_room u online run =
      unless_full (has_room (s.queue_at p))
        (λ full. Ends-done tt t (handle_join_channel-Never p m s u online known full) run)

  pub leave_done-has_room :
      dispatch_action repo bcrypt search db leave m (with_mu free s) ≡ done tt t
      → has_room (s.queue_at p) ≡ true
  unfolding dispatch_action
  leave_done-has_room run =
      unless_full (has_room (s.queue_at p))
        (λ full. Ends-done tt t (handle_leave_channel-Never p m s known full) run)

  pub text_message_done-has_room :
      dispatch_action repo bcrypt search db text_message m (with_mu free s) ≡ done tt t
      → has_room (s.queue_at p) ≡ true
  unfolding dispatch_action
  text_message_done-has_room run = unless_full (has_room (s.queue_at p)) (λ full. cc (
    run,
    handle_send_message-waits search m s p known (h.conns.open_queue m.client_id p known) full,
  ))

  pub login_done-has_room :
      dispatch_action repo bcrypt search db login m (with_mu free s) ≡ done tt t
      → has_room (s.queue_at p) ≡ true
  unfolding dispatch_action
  login_done-has_room run =
      unless_full (has_room (s.queue_at p))
        (λ full. Ends-done tt t (handle_login-Never p m repo bcrypt db s known full) run)

  -- What `Run` handled to its end was ready, or is nothing that it handles.
  dispatch_done-IsReady :
      (act : MessageAction)
      → NamesOnline s act m.user
      → dispatch_action repo bcrypt search db act m (with_mu free s) ≡ done tt t
      → (HasRoom s m.client_id × TokenIsWhole act m) ⊎ (with_mu free s ≡ t)
  unfolding dispatch_action
  dispatch_done-IsReady join (inl other) run = absurd (cc)
  dispatch_done-IsReady join (inr (u, online)) run =
      inl (sender-HasRoom s m.client_id p known (join_done-has_room u online run), tt)
  dispatch_done-IsReady leave named run =
      inl (sender-HasRoom s m.client_id p known (leave_done-has_room run), tt)
  dispatch_done-IsReady text_message named run =
      inl (sender-HasRoom s m.client_id p known (text_message_done-has_room run), tt)
  dispatch_done-IsReady login named run =
      inl (
        sender-HasRoom s m.client_id p known (login_done-has_room run),
        login_done-HasWholeToken run,
      )
  dispatch_done-IsReady _ named run = inr (ap (final s) run)

-- From a valid store: what `Run` handles to its end, for a connection that is registered, where the
-- user whom the message names is online or the message is a login, was ready, or changed nothing.
pub dispatched_done-IsReady :
    (repo : Repository) (bcrypt : Bcrypt) (search : SearchClient) (db : repo.Db) (m : Message)
    (s t : Store)
    → IsValid s
    → (p : ℕ) → lookup s.clients m.client_id ≡ some p
    → NamesOnline s m.action m.user
    → handle_event repo bcrypt search db (dispatched m) s ≡ done tt t
    → IsReady s (dispatched m) ⊎ (s ≡ t)
unfolding handle_event handle_message
dispatched_done-IsReady repo bcrypt search db m s t v p known named =
    subst
      (λ l.
        dispatch_action repo bcrypt search db m.action m (with_mu l s) ≡ done tt t
        → IsReady s (dispatched m) ⊎ (with_mu l s ≡ t))
      (sym v.unlocked)
      (dispatch_done-IsReady repo bcrypt search db m s t (IsValid-IsSound v) p known m.action named)
