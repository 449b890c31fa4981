-- ===== src/System.antt =====
-- internal/server/server.go, ServeWS and Run, with internal/connection/client.go, ReadMessages and
-- WriteMessages: the goroutines of all connections and the goroutine of `Run`, which meet on the
-- three Go channels of the Server. `register`, `unregister` and `dispatchMessage` have no buffer,
-- so a goroutine that sends on one of them is at that statement until `Run` takes what it has.
--
-- A step of a connection's goroutine is what it does from one such statement to the next. `Run`
-- receives a message in one step, after which the reader goes on, and handles it in another, which
-- there is only if the handler comes to its end: until then `Run` takes nothing else. So a `Run`
-- that is blocked, where a handler waits for room in the queue of the sender, is a state in which
-- `Run` has no step. What the handler changes is seen at its end. addClient and removeClient wait
-- for nobody, and are one step. The reader asks IsAuthenticated and GetUser at one moment:
-- only a login of the connection can come between, and it does not take back what was said before.
pub mod Invariant
pub mod Effect
pub mod Keeps
pub mod Handling
pub mod Reached
pub mod Progress
pub mod Chat
pub mod Moves
pub mod Simulation
pub mod Members
pub mod Delivery
pub mod Answers
pub mod Stuck
pub mod Stopped
use room_chat.Prelude.{ℕ, ◌≡◌, ◌≢◌, ◌⊎◌, Bool, true, false, Text, List, ◌∷◌, text_eq, nat_eq}
use room_chat.Prelude.Maps.{update}
use room_chat.Protocol.{Message}
use room_chat.Connection.{
  Client, Queue, ReadStep, reply, dispatch, new_client, empty_queue, read_message,
}
use room_chat.User.{User}
use room_chat.Channel.{Channel}
use room_chat.Users.{Repository, Bcrypt}
use room_chat.Elastic.{SearchClient}
use room_chat.Prelude.{Option}
use room_chat.Store.{Store, Outcome, done, send}
use room_chat.Server.Run.{Event, registered, unregistered, dispatched, handle_event}
use room_chat.Server.Reachable.{new_server}

-- Where the goroutine that serves a connection is. `absent`: there is no connection at the address
-- yet. `waiting`: ServeWS, at `s.register <- client`. `reading`: the reader waits for a frame.
-- `replying m`: at `c.send <- errorMsg`. `sending m`: at `c.dispatchCh <- message`. `closing`: at
-- `c.closeCh <- c`. `gone`: it has returned.
pub data Phase : Type 0 where
  absent waiting reading closing gone : Phase
  replying sending : Message → Phase

-- Where the goroutine of `Run` is. `idle`: at its select. `handling p m`: it has received the
-- message from the reader of the connection, and is in handleMessage.
pub data Hand : Type 0 where
  idle : Hand
  handling : ℕ → Message → Hand

-- `writing p`: the goroutine of WriteMessages for the connection runs. It ends for good when the
-- socket fails.
pub record System : Type 0 where
  pub store : Store
  pub phase : ℕ → Phase
  pub writing : ℕ → Bool
  pub run : Hand

-- A connection was made at the address.
abbrev pub is_made : Phase → Bool
is_made absent = false
is_made _ = true

-- `Run` has registered the connection, and has not removed it.
abbrev pub is_live : Phase → Bool
is_live reading = true
is_live (replying m) = true
is_live (sending m) = true
is_live closing = true
is_live _ = false

abbrev pub set_phase : ℕ → Phase → Store → System → System
set_phase p ph t x = record x { store = t; phase = update x.phase p ph }

abbrev pub set_run : Hand → System → System
set_run r x = record x { run = r }

abbrev pub set_writing : ℕ → Bool → System → System
set_writing p b x = record x { writing = update x.writing p b }

-- What the reader is at after a frame.
abbrev pub after_frame : ReadStep → Phase
after_frame (reply m) = replying m
after_frame (dispatch m) = sending m

-- An identifier that no connection has.
abbrev pub IsUnique : System → Text → Type 0
IsUnique x uuid = (q : ℕ) → is_made (x.phase q) ≡ true → (x.store.client_at q).conn_id ≢ uuid

-- The store after NewClient at `p`.
abbrev pub connect : ℕ → Text → Store → Store
connect p uuid s = record s {
  client_at = update s.client_at p (new_client uuid);
  queue_at = update s.queue_at p empty_queue;
}

-- The store after the writer has taken the first message.
abbrev pub take_first : ℕ → List Message → Store → Store
take_first p rest s = record s {
  queue_at = update s.queue_at p (record (s.queue_at p) { buffer = rest });
}

-- The server as it starts, with no connection.
unfoldable pub new_system : (ℕ → Client) → (ℕ → Queue) → (ℕ → User) → (ℕ → Channel) → System
new_system client_at queue_at user_at channel_at = record {
  store = new_server client_at queue_at user_at channel_at;
  phase = λ p. absent;
  writing = λ p. false;
  run = idle;
}

module _ (repo : Repository) (bcrypt : Bcrypt) (search : SearchClient) {Frame : Type 0}
    (unmarshal : Frame → Text ⊎ Message) (validate : Message → Option Text) where
  pub data Step (x : System) : System → Type 0 where
    serve_ws :
        (p : ℕ) (uuid : Text)
        → x.phase p ≡ absent
        → IsUnique x uuid
        → Step x (set_phase p waiting (connect p uuid x.store) x)
    run_register :
        (db : repo.Db) (p : ℕ) (t : Store)
        → x.run ≡ idle
        → x.phase p ≡ waiting
        → handle_event repo bcrypt search db (registered p) x.store ≡ done tt t
        → Step x (set_writing p true (set_phase p reading t x))
    read :
        (p : ℕ) (frame : Frame) (uuid : Text) (now : ℕ)
        → x.phase p ≡ reading
        → Step x (
            set_phase p
              (after_frame (read_message unmarshal validate (x.store.client_at p) uuid now frame))
              x.store
              x)
    answer :
        (p : ℕ) (m : Message) (t : Store)
        → x.phase p ≡ replying m
        → send p m x.store ≡ done tt t
        → Step x (set_phase p reading t x)
    run_dispatch :
        (p : ℕ) (m : Message)
        → x.run ≡ idle
        → x.phase p ≡ sending m
        → Step x (set_run (handling p m) (set_phase p reading x.store x))
    run_handle :
        (db : repo.Db) (p : ℕ) (m : Message) (t : Store)
        → x.run ≡ handling p m
        → handle_event repo bcrypt search db (dispatched m) x.store ≡ done tt t
        → Step x (record x { store = t; run = idle })
    stop : (p : ℕ) → x.phase p ≡ reading → Step x (set_phase p closing x.store x)
    run_unregister :
        (db : repo.Db) (p : ℕ) (t : Store)
        → x.run ≡ idle
        → x.phase p ≡ closing
        → handle_event repo bcrypt search db (unregistered p) x.store ≡ done tt t
        → Step x (set_phase p gone t x)
    write :
        (p : ℕ) (m : Message) (rest : List Message)
        → x.writing p ≡ true
        → (x.store.queue_at p).buffer ≡ m ∷ rest
        → Step x (record x { store = take_first p rest x.store })
    writer_ends : (p : ℕ) → x.writing p ≡ true → Step x (set_writing p false x)

  pub data Reach (x : System) : System → Type 0 where
    here : Reach x x
    next : {y z : System} → Reach x y → Step y z → Reach x z
