-- ===== src/Server/Who.antt =====
-- Who is logged in after each event.
use room_chat.Prelude.{
  ℕ, ◌≡◌, subst, refl, Option, none, some, Text, text_eq, nat_eq, nat_beq, nat_beq_iff,
  text_beq_iff, Bool-cases, inl, inr, arith, if◌then◌else◌,
}
use room_chat.Prelude.Maps.{lookup, lookup-insert, lookup-delete}
use room_chat.Protocol.{Message, MessageAction, join, leave, text_message, login}
use room_chat.Connection.{authenticate}
use room_chat.Users.{Repository, Bcrypt}
use room_chat.Elastic.{SearchClient}
use room_chat.Store.{Store, Outcome, free}
use room_chat.Server.Clients
use room_chat.Server.Clients.{insert_client}
use room_chat.Server.Run.{
  Event, registered, unregistered, dispatched, dispatch_action, handle_message, handle_event,
}
use room_chat.Server.Steps.Valid.{with_mu, IsSound}
use room_chat.Server.Steps.Detach.{IsNew, without}
use room_chat.Server.Keeps.Clients.{drop_client_lem}
use room_chat.Server.Effects.{Ends, done-Ends, AllowsUsers, AllowsChannels}
use room_chat.Server.Login.{handle_login}
use room_chat.Server.Effects.Sends.{handle_send_message-Ends}
use room_chat.Server.Effects.Joins.{handle_join_channel-Ends}
use room_chat.Server.Effects.Leaves.{handle_leave_channel-Ends, detach_client-Ends}
use room_chat.Server.Events.{IsReady}
use room_chat.Server.Logins.{
  SameClients, SameClients-Allows, LoggedAs, logged, accepted_name, Ends-mono,
}
use room_chat.Server.Logins.Accepting.{handle_login-LoggedAs, handle_login-unknown}
use room_chat.Server.Chat.{shown, who, or_else, who_by, who_dispatched, who_after}

-- The logins that an event leaves.
pub record Sees (view : ℕ → Option Text) (t : Store) : Type 0 where
  pub at : (q : ℕ) → who t q ≡ view q

pub AllowsUsers-Same : AllowsUsers SameClients
AllowsUsers-Same f n sessions s = record { registry = refl; states = refl; shut = λ q. refl }

pub AllowsChannels-Same : AllowsChannels SameClients
AllowsChannels-Same f n rooms s = record { registry = refl; states = refl; shut = λ q. refl }

same-Sees : (s t : Store) → SameClients s t → Sees (who s) t
same-Sees s t h = record { at = λ q. rw (h.registry, h.states) refl }

gone-Sees :
    (p : ℕ) (s t : Store)
    → IsSound s
    → lookup s.clients (s.client_at p).conn_id ≡ some p
    → SameClients (without p s.sessions s.user_at s) t
    → Sees (λ q. if nat_beq p q then none else who s q) t
gone-Sees p s t sound known h = record {
  at = λ q.
      rw (h.registry, h.states)
        (ground (
          arith,
          known,
          nat_beq_iff p q,
          text_beq_iff (s.client_at p).conn_id (s.client_at q).conn_id,
          lookup-delete (s.client_at p).conn_id (s.client_at q).conn_id s.clients,
        ));
}

new-Sees : (p : ℕ) (s : Store) → IsNew s p → Sees (who s) (insert_client p s)
unfolding insert_client
new-Sees p s new = record {
  at = λ q. ground (
    arith,
    new.unknown,
    new.anonymous,
    nat_beq_iff p q,
    text_beq_iff (s.client_at p).conn_id (s.client_at q).conn_id,
    lookup-insert (s.client_at p).conn_id (s.client_at q).conn_id p s.clients,
  );
}

-- The connection that logs in.
logged-who :
    (p : ℕ) (name : Option Text) (s : Store)
    → lookup s.clients (s.client_at p).conn_id ≡ some p
    → shown s.clients (logged name (s.client_at p)) p ≡ or_else (who s p) name
unfolding authenticate
logged-who p none s known = ground (arith, known)
logged-who p (some w) s known = ground (arith, known, nat_beq_iff p p)

logged-Sees :
    (p : ℕ) (name : Option Text) (s t : Store)
    → lookup s.clients (s.client_at p).conn_id ≡ some p
    → LoggedAs p name s t
    → Sees (who_by s (some p) name) t
logged-Sees p name s t known (cs, states, shut) = record {
  at = λ q.
      rw (cs, states)
        (elim (Bool-cases (nat_beq p q)) [
          | inl e ↦ rw e (
              subst (λ r. shown s.clients (logged name (s.client_at p)) r ≡ or_else (who s p) name)
                ((nat_beq_iff p q).0 e) (logged-who p name s known))
          | inr e ↦ rw e refl
        ]);
}

Ends-Sees : (o : Outcome (Unit {0})) (s : Store) → Ends o (SameClients s) → Ends o (Sees (who s))
Ends-Sees o s h = Ends-mono o (SameClients s) (Sees (who s)) (same-Sees s) h

module _ (repo : Repository) (bcrypt : Bcrypt) (search : SearchClient) (db : repo.Db) (s : Store)
    (sound : IsSound s) where
  login-Sees :
      (m : Message) (o : Option ℕ)
      → lookup s.clients m.client_id ≡ o
      → Ends
          (handle_login repo bcrypt db m (with_mu free s))
          (Sees (who_by s o (accepted_name repo bcrypt db m.request.token)))
  login-Sees m none unknown = Ends-Sees _ s (handle_login-unknown repo bcrypt db m s unknown)
  login-Sees m (some p) known =
      Ends-mono _ (LoggedAs p (accepted_name repo bcrypt db m.request.token) s) _
        (λ t h. logged-Sees p _ s t (rw (sound.conns.client_named m.client_id p known) known) h)
        (handle_login-LoggedAs repo bcrypt db m s p known)

  dispatch_action-Sees :
      (act : MessageAction) (m : Message)
      → Ends
          (dispatch_action repo bcrypt search db act m (with_mu free s))
          (Sees (who_dispatched repo bcrypt db s act m))
  unfolding dispatch_action
  dispatch_action-Sees join m = Ends-Sees _ (with_mu free s) (
      handle_join_channel-Ends SameClients-Allows AllowsUsers-Same AllowsChannels-Same m
        (with_mu free s))
  dispatch_action-Sees leave m = Ends-Sees _ (with_mu free s) (
      handle_leave_channel-Ends SameClients-Allows AllowsUsers-Same AllowsChannels-Same m
        (with_mu free s))
  dispatch_action-Sees text_message m =
      Ends-Sees _ (with_mu free s)
        (handle_send_message-Ends SameClients-Allows search m (with_mu free s))
  dispatch_action-Sees login m = login-Sees m (lookup s.clients m.client_id) refl
  dispatch_action-Sees _ m = done-Ends (record { at = λ q. refl })

  pub handle_event-Sees :
      (e : Event)
      → IsReady s e
      → Ends
          (handle_event repo bcrypt search db e (with_mu free s))
          (Sees (who_after repo bcrypt db s e))
  unfolding handle_event handle_message Clients.add_client Clients.remove_client insert_client
  handle_event-Sees (registered p) ready = done-Ends (record { at = (new-Sees p s ready).at })
  handle_event-Sees (unregistered p) ready = rw (drop_client_lem p s sound ready) (
      Ends-mono _ (SameClients (with_mu free (without p s.sessions s.user_at s))) _
        (λ t h.
          gone-Sees p s t sound ready
            (record { registry = h.registry; states = h.states; shut = h.shut }))
        (detach_client-Ends SameClients-Allows AllowsUsers-Same AllowsChannels-Same _ p
          (with_mu free (without p s.sessions s.user_at s))))
  handle_event-Sees (dispatched m) ready = dispatch_action-Sees m.action m
