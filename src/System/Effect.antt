-- ===== src/System/Effect.antt =====
-- What an event of `Run` does to the registry, to the login states and to the closing of queues.
use room_chat.Prelude.{
  ℕ, ◌≡◌, refl, true, false, Option, none, some, Text, text_eq, nat_eq, nat_beq, nat_beq_iff, arith,
  subst, sym,
}
use room_chat.Prelude.Maps.{lookup, insert, delete}
use room_chat.Protocol.{Message, MessageAction, join, leave, text_message, login}
use room_chat.Connection.{authenticate}
use room_chat.Users.{Repository, Bcrypt}
use room_chat.Elastic.{SearchClient}
use room_chat.Store.{Store, Outcome, done, free}
use room_chat.Server.Clients
use room_chat.Server.Clients.{insert_client, detach_client}
use room_chat.Server.Run.{
  registered, unregistered, dispatched, dispatch_action, handle_message, handle_event,
}
use room_chat.Server.Invariant.{IsValid}
use room_chat.Server.Steps.Valid.{with_mu, IsValid-IsSound}
use room_chat.Server.Steps.Detach.{without}
use room_chat.Server.Keeps.Clients.{drop_client_lem}
use room_chat.Server.Effects.{Ends, Ends-done, done-Ends}
use room_chat.Server.Effects.Sends.{handle_send_message-Ends}
use room_chat.Server.Effects.Joins.{handle_join_channel-Ends}
use room_chat.Server.Effects.Leaves.{handle_leave_channel-Ends, detach_client-Ends}
use room_chat.Server.Logins.{SameClients, SameClients-Allows, LoggedAs, accepted_name, Ends-mono}
use room_chat.Server.Logins.Accepting.{handle_login-LoggedAs}
use room_chat.Server.Who.{AllowsUsers-Same, AllowsChannels-Same}

-- A message of the connection `p` was handled.
pub record Tame (p : ℕ) (s t : Store) : Type 0 where
  pub registry : t.clients ≡ s.clients
  pub named : (q : ℕ) → (t.client_at q).conn_id ≡ (s.client_at q).conn_id
  pub others : (q : ℕ) → nat_beq p q ≡ false → t.client_at q ≡ s.client_at q
  pub stays : (q : ℕ) → (s.client_at q).authenticated ≡ true → t.client_at q ≡ s.client_at q
  pub shut : (q : ℕ) → (t.queue_at q).closed ≡ (s.queue_at q).closed

-- The connection `p` has come.
pub record Comes (p : ℕ) (s t : Store) : Type 0 where
  pub registry : t.clients ≡ insert (s.client_at p).conn_id p s.clients
  pub states : t.client_at ≡ s.client_at
  pub shut : (q : ℕ) → (t.queue_at q).closed ≡ (s.queue_at q).closed

-- The connection `p` has gone.
pub record Leaves (p : ℕ) (s t : Store) : Type 0 where
  pub registry : t.clients ≡ delete (s.client_at p).conn_id s.clients
  pub states : t.client_at ≡ s.client_at
  pub shut : (q : ℕ) → nat_beq p q ≡ false → (t.queue_at q).closed ≡ (s.queue_at q).closed

pub SameClients-Tame : (p : ℕ) (s t : Store) → SameClients s t → Tame p s t
SameClients-Tame p s t h = record {
  registry = h.registry;
  named = λ q. rw h.states refl;
  others = λ q e. rw h.states refl;
  stays = λ q e. rw h.states refl;
  shut = h.shut;
}

LoggedAs-Tame : (p : ℕ) (name : Option Text) (s t : Store) → LoggedAs p name s t → Tame p s t
unfolding authenticate
LoggedAs-Tame p none s t (cs, states, shut) = record {
  registry = cs;
  named = λ q. rw states (ground (arith, nat_beq_iff p q));
  others = λ q e. rw states (ground arith);
  stays = λ q e. rw states (ground (arith, nat_beq_iff p q));
  shut = shut;
}
LoggedAs-Tame p (some w) s t (cs, states, shut) = record {
  registry = cs;
  named = λ q. rw states (ground (arith, nat_beq_iff p q));
  others = λ q e. rw states (ground arith);
  stays = λ q e. rw states (ground (arith, nat_beq_iff p q));
  shut = shut;
}

quiet-Tame :
    (p : ℕ) (s : Store) (o : Outcome (Unit {0}))
    → Ends o (SameClients (with_mu free s))
    → Ends o (Tame p s)
quiet-Tame p s o h =
    Ends-mono o (SameClients (with_mu free s)) (Tame p s)
      (λ t k.
        SameClients-Tame p s t (record { registry = k.registry; states = k.states; shut = k.shut }))
      h

gone-Leaves :
    (p : ℕ) (s t : Store)
    → SameClients (with_mu free (without p s.sessions s.user_at s)) t
    → Leaves p s t
gone-Leaves p s t h = record {
  registry = h.registry;
  states = h.states;
  shut = λ q other. ground (arith, h.shut q);
}

module _ (repo : Repository) (bcrypt : Bcrypt) (search : SearchClient) (db : repo.Db) where
  dispatch_action-Tame :
      (p : ℕ) (act : MessageAction) (m : Message) (s : Store)
      → lookup s.clients m.client_id ≡ some p
      → Ends (dispatch_action repo bcrypt search db act m (with_mu free s)) (Tame p s)
  unfolding dispatch_action
  dispatch_action-Tame p join m s known = quiet-Tame p s _ (
      handle_join_channel-Ends SameClients-Allows AllowsUsers-Same AllowsChannels-Same m
        (with_mu free s))
  dispatch_action-Tame p leave m s known = quiet-Tame p s _ (
      handle_leave_channel-Ends SameClients-Allows AllowsUsers-Same AllowsChannels-Same m
        (with_mu free s))
  dispatch_action-Tame p text_message m s known =
      quiet-Tame p s _ (handle_send_message-Ends SameClients-Allows search m (with_mu free s))
  dispatch_action-Tame p login m s known =
      Ends-mono _ (LoggedAs p (accepted_name repo bcrypt db m.request.token) s) (Tame p s)
        (LoggedAs-Tame p _ s) (handle_login-LoggedAs repo bcrypt db m s p known)
  dispatch_action-Tame p _ m s known = quiet-Tame p s _ (done-Ends (SameClients-Allows.same _))

  -- The events of a valid store.
  module _ (s t : Store) (v : IsValid s) where
    pub dispatched-Tame :
        (p : ℕ) (m : Message)
        → lookup s.clients m.client_id ≡ some p
        → handle_event repo bcrypt search db (dispatched m) s ≡ done tt t
        → Tame p s t
    unfolding handle_event handle_message
    dispatched-Tame p m known =
        subst
          (λ l.
            dispatch_action repo bcrypt search db m.action m (with_mu l s) ≡ done tt t → Tame p s t)
          (sym v.unlocked) (Ends-done tt t (dispatch_action-Tame p m.action m s known))

    pub registered-Comes :
        (p : ℕ) → handle_event repo bcrypt search db (registered p) s ≡ done tt t → Comes p s t
    unfolding handle_event Clients.add_client insert_client
    registered-Comes p =
        subst (λ l. Clients.add_client p (with_mu l s) ≡ done tt t → Comes p s t) (sym v.unlocked)
          (Ends-done {P = Comes p s} tt t
            (done-Ends (record { registry = refl; states = refl; shut = λ q. refl })))

    pub unregistered-Leaves :
        (p : ℕ)
        → lookup s.clients (s.client_at p).conn_id ≡ some p
        → handle_event repo bcrypt search db (unregistered p) s ≡ done tt t
        → Leaves p s t
    unfolding handle_event Clients.remove_client
    unregistered-Leaves p known =
        subst (λ l. Clients.remove_client p (with_mu l s) ≡ done tt t → Leaves p s t)
          (sym v.unlocked)
          (Ends-done {P = Leaves p s} tt t (
            rw (drop_client_lem p s (IsValid-IsSound v) known) (
              Ends-mono _ (SameClients (with_mu free (without p s.sessions s.user_at s)))
                (Leaves p s) (gone-Leaves p s)
                (detach_client-Ends SameClients-Allows AllowsUsers-Same AllowsChannels-Same _ p
                  (with_mu free (without p s.sessions s.user_at s))))))
