-- ===== src/Server/Reachable.antt =====
-- Every store that the server can come to: the events of `Run` in any order, between the steps of
-- the goroutines that read from and write to the connections. (WriteMessages takes from a queue,
-- ReadMessages answers into its own, ServeWS makes a client.)
use room_chat.Prelude.{
  ℕ, ◌≡◌, ◌≢◌, ◌∙◌, refl, true, false, some, Text, List, [], ◌∷◌, text_eq, nat_eq, arith, ap, sym,
  Bool-cases, inl, inr,
}
use room_chat.Prelude.Sets.{contains}
use room_chat.Prelude.Maps.{lookup, update}
use room_chat.Protocol.{Message}
use room_chat.Connection.{Client, Queue, new_client, empty_queue, has_room, push}
use room_chat.User.{User}
use room_chat.Channel.{Channel}
use room_chat.Users.{Repository, Bcrypt}
use room_chat.Elastic.{SearchClient}
use room_chat.Store.{Store, Outcome, done, panicked, waits, free, send}
use room_chat.Server.Run.{Event, handle_event}
use room_chat.Server.Invariant.{Conns, IsValid}
use room_chat.Server.Steps.Frame.{Rooms-frame, SameClosed}
use room_chat.Server.Steps.Valid.{Returns, IsSound-frame, IsValid-IsSound}
use room_chat.Server.Keeps.LoggingIn.{FindsByName}
use room_chat.Server.Events.{IsReady, handle_event-IsValid}

-- `NewServer`: no client, no session, no channel. What stands at the unused addresses is arbitrary.
unfoldable pub new_server : (ℕ → Client) → (ℕ → Queue) → (ℕ → User) → (ℕ → Channel) → Store
new_server client_at queue_at user_at channel_at = record {
  client_at = client_at;
  queue_at = queue_at;
  user_at = user_at;
  next_user = 0;
  channel_at = channel_at;
  next_channel = 0;
  clients = [];
  sessions = [];
  rooms = [];
  mu = free;
}

pub new_server-IsValid :
    (client_at : ℕ → Client) (queue_at : ℕ → Queue) (user_at : ℕ → User) (channel_at : ℕ → Channel)
    → IsValid (new_server client_at queue_at user_at channel_at)
unfolding new_server lookup contains
new_server-IsValid client_at queue_at user_at channel_at = record {
  unlocked = refl;
  conns = record {
    client_named = λ i q e. cc;
    open_queue = λ i q e. cc;
    session_named = λ v t e. cc;
    session_old = λ v t e. absurd (cc);
    online = λ v t e. cc;
    connections_distinct = λ v t e. absurd (cc);
    attached = λ v q e. absurd (cc);
    logged_in = λ i q e. cc;
  };
  rooms = record {
    dir_named = λ v t e. cc;
    dir_old = λ v t e. absurd (cc);
    channels_distinct = λ v t e. absurd (cc);
    room_named = λ n c e. cc;
    room_old = λ n c e. absurd (cc);
    members_distinct = λ n c e. absurd (cc);
    synced = λ n v. refl;
  };
  populated = λ n c e. cc;
}

-- An address that no map leads to.
abbrev pub IsUnused : Store → ℕ → Type 0
IsUnused s p = (id : Text) → lookup s.clients id ≢ some p

module _ (repo : Repository) (bcrypt : Bcrypt) (search : SearchClient) where
  pub data Step (s t : Store) : Type 0 where
    handled :
        (db : repo.Db) (e : Event)
        → IsReady s e
        → handle_event repo bcrypt search db e s ≡ done tt t
        → Step s t
    connected :
        (p : ℕ) (uuid : Text)
        → IsUnused s p
        → t ≡ record s {
          client_at = update s.client_at p (new_client uuid);
          queue_at = update s.queue_at p empty_queue;
        }
        → Step s t
    answered : (p : ℕ) (m : Message) → send p m s ≡ done tt t → Step s t
    written :
        (p : ℕ) (m : Message) (rest : List Message)
        → (s.queue_at p).buffer ≡ m ∷ rest
        → t ≡ record s { queue_at = update s.queue_at p (record (s.queue_at p) { buffer = rest }) }
        → Step s t

  pub data Reach (s : Store) : Store → Type 0 where
    here : Reach s s
    next : {t u : Store} → Reach s t → Step t u → Reach s u

connected-Conns :
    (s : Store) (p : ℕ) (uuid : Text)
    → IsUnused s p
    → Conns s
    → Conns (record s {
      client_at = update s.client_at p (new_client uuid);
      queue_at = update s.queue_at p empty_queue;
    })
unfolding new_client empty_queue
connected-Conns s p uuid unused h = record {
  client_named = λ i q e. ground (arith, h.client_named i q, unused i);
  open_queue = λ i q e. ground (arith, h.open_queue i q, unused i);
  session_named = h.session_named;
  session_old = h.session_old;
  online = h.online;
  connections_distinct = h.connections_distinct;
  attached = λ v q e. ground (arith, h.attached v q, unused (s.client_at p).conn_id);
  logged_in = λ i q e. ground (arith, h.logged_in i q, unused i);
}

abbrev result : Store → Outcome (Unit {0}) → Store
result s (done a t) = t
result s _ = s

pub Returns-cases :
    (o : Outcome (Unit {0})) (P : Store → Type 0)
    → Returns o P
    → (t : Store) × (o ≡ done tt t) × P t
Returns-cases (done a t) P r = (t, refl, r)
Returns-cases (panicked e) P r = absurd r
Returns-cases (waits w) P r = absurd r

requeued :
    {s : Store}
    → IsValid s
    → (q : ℕ → Queue) → SameClosed q s.queue_at
    → IsValid (record s { queue_at = q })
requeued {s} v q same =
    let h = IsSound-frame q s.mu same (IsValid-IsSound v) in
    record { unlocked = v.unlocked; conns = h.conns; rooms = h.rooms; populated = h.populated }

pub send_open :
    (p : ℕ) (m : Message) (s : Store)
    → (s.queue_at p).closed ≡ false
    → has_room (s.queue_at p) ≡ true
    → send p m s ≡ done tt (record s { queue_at = update s.queue_at p (push m (s.queue_at p)) })
unfolding send
send_open p m s opened room = rw (opened, room)

pub send_inv :
    (p : ℕ) (m : Message) (s t : Store)
    → send p m s ≡ done tt t
    → t ≡ record s { queue_at = update s.queue_at p (push m (s.queue_at p)) }
unfolding send
send_inv p m s t e = elim (Bool-cases (s.queue_at p).closed) [
  | inl shut ↦ absurd (ground arith)
  | inr opened ↦ elim (Bool-cases (has_room (s.queue_at p))) [
    | inl room ↦ sym (ap (result s) (sym (send_open p m s opened room) ∙ e))
    | inr full ↦ absurd (ground arith)
  ]
]

pub Returns-done :
    (o : Outcome (Unit {0})) (P : Store → Type 0) (t : Store) → Returns o P → o ≡ done tt t → P t
Returns-done o P t r e = rw e at r

module _ (repo : Repository) (bcrypt : Bcrypt) (search : SearchClient)
    (law : FindsByName repo) where
  pub Step-IsValid : {s t : Store} → Step repo bcrypt search s t → IsValid s → IsValid t
  Step-IsValid {s} {t} (handled db e ready run) v =
      Returns-done _ IsValid t (handle_event-IsValid repo bcrypt search db law e s v ready) run
  Step-IsValid {s} (connected p uuid unused e) v = rw e (record {
    unlocked = v.unlocked;
    conns = connected-Conns s p uuid unused v.conns;
    rooms = Rooms-frame _ _ s.clients s.sessions s.mu v.rooms;
    populated = v.populated;
  })
  Step-IsValid {s} {t} (answered p m run) v =
      rw (send_inv p m s t run)
        (requeued v (update s.queue_at p (push m (s.queue_at p))) (λ q. ground arith))
  Step-IsValid {s} (written p m rest full e) v = rw e (
      requeued v (update s.queue_at p (record (s.queue_at p) { buffer = rest }))
        (λ q. ground arith))

  -- Every store that the server can reach is valid.
  pub Reach-IsValid : {s t : Store} → IsValid s → Reach repo bcrypt search s t → IsValid t
  Reach-IsValid v here = v
  Reach-IsValid v (next r st) = Step-IsValid st (Reach-IsValid v r)

  -- If the repository finds users by their name: from the start of the server on, whatever the
  -- goroutines have done, an event that is ready is handled to its end, without a panic, and
  -- without waiting for a lock or for room in a queue, and the store that it leaves is valid.
  pub handle_event-Reach :
      (client_at : ℕ → Client) (queue_at : ℕ → Queue) (user_at : ℕ → User)
      (channel_at : ℕ → Channel) (db : repo.Db) (e : Event) {s : Store}
      → Reach repo bcrypt search (new_server client_at queue_at user_at channel_at) s
      → IsReady s e
      → (t : Store) × (handle_event repo bcrypt search db e s ≡ done tt t) × IsValid t
  handle_event-Reach client_at queue_at user_at channel_at db e {s} r ready =
      Returns-cases _ IsValid (
        handle_event-IsValid repo bcrypt search db law e s
          (Reach-IsValid (new_server-IsValid client_at queue_at user_at channel_at) r) ready)
