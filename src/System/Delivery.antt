-- ===== src/System/Delivery.antt =====
-- A text message on its way, and who gets it.
use room_chat.Prelude.{
  ℕ, ◌≡◌, ◌⊎◌, ◌∙◌, refl, ap, sym, subst, Bool, true, false, ◌&&◌, Option, none, some, Text, text,
  text_eq, nat_eq, nat_beq_iff, arith, Bool-cases, Option-cases, inl, inr, if◌then◌else◌,
}
use room_chat.Prelude.Sets.{contains}
use room_chat.Prelude.Maps.{lookup, update}
use room_chat.Protocol.{Message, text_message}
use room_chat.Connection.{Client, Queue, has_room, push}
use room_chat.User.{User}
use room_chat.Channel.{Channel, push_message}
use room_chat.Users.{Repository, Bcrypt}
use room_chat.Elastic.{SearchClient, index_message}
use room_chat.Store.{Store, Outcome, done, offer, free}
use room_chat.Server.Replies.{response_message}
use room_chat.Server.Messages.{handle_send_message}
use room_chat.Server.Run.{dispatched, dispatch_action, handle_message, handle_event}
use room_chat.Server.Invariant.{is_member}
use room_chat.Server.Steps.Valid.{Returns, with_mu, IsValid-IsSound}
use room_chat.Server.Keeps.LoggingIn.{FindsByName}
use room_chat.Server.Reachable.{Returns-cases}
use room_chat.Server.Chat.{who}
use room_chat.Server.Delivery.{handle_send_message-delivers}
use room_chat.System.{System, new_system, is_live, Reach}
use room_chat.System.Invariant.{Inv, IsOnItsWay, way-live, way-Owns}
use room_chat.System.Reached.{Reach-Inv, sender}
use room_chat.System.Moves.{live-who}
use room_chat.Server.Refusals.{members-is_member}

-- Whether a connection with this login gets what is sent to the channel.
abbrev pub hears : Store → Text → Option Text → Bool
hears s n none = false
hears s n (some w) = is_member s n w

-- The queues once the sender has its answer.
abbrev pub answered : Store → ℕ → Message → ℕ → Queue
answered s p m =
    update s.queue_at p (push (response_message (text "message sent") m.request_id) (s.queue_at p))

room_of :
    (s : Store) (n w : Text)
    → is_member s n w ≡ true
    → (c : ℕ) × (lookup s.rooms n ≡ some c) × (contains (s.channel_at c).users w ≡ true)
unfolding contains
room_of s n w e = elim (Option-cases (lookup s.rooms n)) [
  | inl absent ↦ absurd (ground (arith, absent))
  | inr (c, room) ↦ (c, room, members-is_member s n w c room ∙ e)
]

hears_lem :
    (s : Store) (n : Text) (q : ℕ)
    → lookup s.clients (s.client_at q).conn_id ≡ some q
    → ((s.client_at q).authenticated && is_member s n (s.client_at q).user) ≡ hears s n (who s q)
hears_lem s n q known = elim (Bool-cases (s.client_at q).authenticated) [
  | inl yes_in ↦ rw (live-who s q known yes_in) (rw yes_in refl)
  | inr anonymous ↦ rw (anonymous, known) (ground (arith, nat_beq_iff q q))
]

-- A handler that comes to its end.
abbrev Handles : Outcome (Unit {0}) → (Store → Type 0) → Type 0
Handles o P = (t : Store) × (o ≡ done tt t) × P t

module _ (repo : Repository) (bcrypt : Bcrypt) (search : SearchClient) {Frame : Type 0}
    (unmarshal : Frame → Text ⊎ Message) (validate : Message → Option Text) (law : FindsByName repo)
    (db : repo.Db) where
  text_message-Handles :
      (s : Store) (m : Message) (P : Store → Type 0)
      → s.mu ≡ free
      → m.action ≡ text_message
      → Returns (handle_send_message search m (with_mu free s)) P
      → Handles (handle_event repo bcrypt search db (dispatched m) s) P
  unfolding handle_event handle_message dispatch_action
  text_message-Handles s m P unlocked is_text r = Returns-cases _ P (
      subst (λ a. Returns (dispatch_action repo bcrypt search db a m s) P) (sym is_text)
        (subst (λ l. Returns (handle_send_message search m (with_mu l s)) P) (sym unlocked) r))

  sent :
      (x : System) (p : ℕ) (m : Message)
      → Inv x
      → IsOnItsWay x p m
      → m.action ≡ text_message
      → (who x.store p ≡ some m.user) × (m.user ≡ (x.store.client_at p).user)
  sent x p m h at_it is_text = elim ((way-Owns x p m h at_it).1) [
    | inl by_login ↦ absurd (cc (is_text, by_login))
    | inr (yes_in, name) ↦
        (live-who x.store p (h.live p (way-live x p m h at_it)) yes_in ∙ ap some (sym name), name)
  ]

  -- If the repository finds users by their name: whatever the goroutines of all connections have
  -- done since the server started, a text message that a reader hands on or that `Run` has
  -- received, which is stored, for a channel of which the user whom it names is a member, and whose
  -- connection has a queue with room. That user is the one who is logged in on the connection that
  -- it came from. `Run` handles it to its end, and then any connection that is registered and not
  -- removed has the push, under the name of that user, where its queue has room, exactly if who is
  -- logged in on it is a member of the channel; the queue of the sender has the answer before it,
  -- and every other queue is as it was.
  pub Reach-delivers :
      (client_at : ℕ → Client) (queue_at : ℕ → Queue) (user_at : ℕ → User)
      (channel_at : ℕ → Channel) {x : System}
      → Reach repo bcrypt search unmarshal validate
          (new_system client_at queue_at user_at channel_at)
          x
      → (p : ℕ) (m : Message) → IsOnItsWay x p m
      → m.action ≡ text_message
      → has_room (x.store.queue_at p) ≡ true
      → is_member x.store m.channel m.user ≡ true
      → index_message search m ≡ none
      → (q : ℕ) → is_live (x.phase q) ≡ true
      → (who x.store p ≡ some m.user)
        × Handles (handle_event repo bcrypt search db (dispatched m) x.store) (λ t. t.queue_at q ≡ (
            if hears x.store m.channel (who x.store q)
            then offer (push_message m.channel m) (answered x.store p m q)
            else answered x.store p m q))
  Reach-delivers client_at queue_at user_at channel_at {x} r p m at_it is_text room member stored q
        live =
      let h =
        Reach-Inv repo bcrypt search unmarshal validate law client_at queue_at user_at channel_at
          r in
      let (logged_in, name) = sent x p m h at_it is_text in
      let (c, found, inside) = room_of x.store m.channel m.user member in
      (
        logged_in,
        text_message-Handles x.store m _ h.valid.unlocked is_text (
            subst
              (λ b. Returns (handle_send_message search m (with_mu free x.store)) (λ t.
                t.queue_at q ≡ (
                  if b
                  then offer (push_message m.channel m) (answered x.store p m q)
                  else answered x.store p m q)))
              (hears_lem x.store m.channel q (h.live q live))
              (handle_send_message-delivers search m x.store (IsValid-IsSound h.valid) p c
                (sender repo bcrypt search unmarshal validate x p m h at_it) room found
                (rw (← name) inside) stored q (h.live q live))),
      )
