-- ===== src/System/Simulation.antt =====
-- Every run of the goroutines is one of the chat of `Chat`.
use room_chat.Prelude.{ℕ, ◌≡◌, ◌⊎◌, refl, Option, Text, text_eq, nat_eq, inl, inr}
use room_chat.Prelude.Maps.{lookup}
use room_chat.Protocol.{Message}
use room_chat.Connection.{Client, Queue, empty_queue}
use room_chat.User.{User}
use room_chat.Channel.{Channel}
use room_chat.Users.{Repository, Bcrypt}
use room_chat.Elastic.{SearchClient}
use room_chat.Store.{Store, done}
use room_chat.Server.Run.{Event, registered, unregistered, dispatched, handle_event}
use room_chat.Server.Invariant.{IsValid}
use room_chat.Server.Keeps.LoggingIn.{FindsByName}
use room_chat.Server.Chat.{Follows}
use room_chat.Server.Refinement.{handle_event-Follows}
use room_chat.Server.Reachable.{new_server, send_inv, Returns-done}
use room_chat.System.{
  System, new_system, Step, serve_ws, run_register, read, answer, run_dispatch, run_handle, stop,
  run_unregister, write, writer_ends, Reach, here, next,
}
use room_chat.System.Invariant.{Inv}
use room_chat.System.Keeps.{waiting-IsNew}
use room_chat.System.Reached.{
  Step-Inv, new_system-Inv, sender, run_handle-IsReady, sending-NamesOnline,
}
use room_chat.Prelude.Sets.{contains}
use room_chat.Server.Events.{IsReady}
use room_chat.System.Chat.{nobody, Moves, silent, goes, Talks, start, step}
use room_chat.System.Moves.{chat_of, connect-who, goes-members, message-Moves, same-Moves}

module _ (repo : Repository) (bcrypt : Bcrypt) (search : SearchClient) {Frame : Type 0}
    (unmarshal : Frame → Text ⊎ Message) (validate : Message → Option Text)
    (law : FindsByName repo) where
  follows :
      (db : repo.Db) (e : Event) (s t : Store)
      → IsValid s
      → IsReady s e
      → handle_event repo bcrypt search db e s ≡ done tt t
      → Follows repo bcrypt db s e t
  follows db e s t v ready run =
      Returns-done _ (Follows repo bcrypt db s e) t
        (handle_event-Follows repo bcrypt search law db e s v ready) run

  Step-Moves :
      {x y : System}
      → Step repo bcrypt search unmarshal validate x y
      → Inv x
      → Moves (chat_of x.store) (chat_of y.store)
  unfolding empty_queue
  Step-Moves {x} (serve_ws p uuid nobody unique) h =
      silent (connect-who x p uuid h nobody) (λ n w. refl)
  Step-Moves {x} (run_register db p t free at_it run) h =
      let ((valid, members), views) =
        follows db (registered p) x.store t h.valid (waiting-IsNew x p h at_it) run in
      silent views members
  Step-Moves (read p frame uuid now at_it) h = silent (λ q. refl) (λ n w. refl)
  Step-Moves {x} (answer p m t at_it run) h =
      rw (send_inv p m x.store t run) (silent (λ q. refl) (λ n w. refl))
  Step-Moves (run_dispatch p m free at_it) h = silent (λ q. refl) (λ n w. refl)
  Step-Moves {x} (run_handle db p m t at_it run) h =
      elim (run_handle-IsReady repo bcrypt search unmarshal validate db x p m t h (inr at_it) run) [
        | inr same ↦ same-Moves x.store t same
        | inl ready ↦
            let ((valid, members), views) = follows db (dispatched m) x.store t h.valid ready run in
            message-Moves repo bcrypt db x.store t p m (h.live p (h.taken p m at_it).0)
              (sender repo bcrypt search unmarshal validate x p m h (inr at_it)) m.action
              (sending-NamesOnline x p m h (inr at_it)) (h.taken p m at_it).1.1 members views
      ]
  Step-Moves (stop p at_it) h = silent (λ q. refl) (λ n w. refl)
  Step-Moves {x} (run_unregister db p t free at_it run) h =
      let ((valid, members), views) =
        follows db (unregistered p) x.store t h.valid (h.live p (rw at_it refl)) run in
      goes p views (goes-members x.store t p h.valid valid views members)
  Step-Moves (write p m rest running waits) h = silent (λ q. refl) (λ n w. refl)
  Step-Moves (writer_ends p running) h = silent (λ q. refl) (λ n w. refl)

  Reach-Talks :
      {x y : System}
      → Inv x
      → Reach repo bcrypt search unmarshal validate x y
      → Inv y × Talks (chat_of x.store) (chat_of y.store)
  Reach-Talks h here = (h, start)
  Reach-Talks h (next r st) =
      let (k, talks) = Reach-Talks h r in
      (Step-Inv repo bcrypt search unmarshal validate law st k, step talks (Step-Moves st k))

  -- If the repository finds users by their name: whatever the goroutines of all connections do, in
  -- whatever order, what is seen of it, the logins and the members of the channels, is a run of the
  -- chat that starts with nobody in it. There a connection on which nobody is logged in logs in,
  -- the user of a connection joins a channel or leaves it, and a connection goes, after which the
  -- members are those members who are still logged in on some connection.
  pub Reach-simulates :
      (client_at : ℕ → Client) (queue_at : ℕ → Queue) (user_at : ℕ → User)
      (channel_at : ℕ → Channel) {x : System}
      → Reach repo bcrypt search unmarshal validate
          (new_system client_at queue_at user_at channel_at)
          x
      → Talks nobody (chat_of x.store)
  unfolding new_system new_server lookup contains
  Reach-simulates client_at queue_at user_at channel_at r =
      (Reach-Talks (new_system-Inv client_at queue_at user_at channel_at) r).1
