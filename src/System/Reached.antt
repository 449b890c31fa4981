-- ===== src/System/Reached.antt =====
-- What the goroutines can come to, from the start of the server on.
use room_chat.Prelude.{
  ℕ, ◌≡◌, ◌⊎◌, refl, Bool, true, Option, some, Text, text_eq, nat_eq, nat_beq_iff, arith, ap, subst,
  sym, ◌∙◌, Option-cases, inl, inr,
}
use room_chat.Prelude.Sets.{contains}
use room_chat.Prelude.Maps.{lookup}
use room_chat.Protocol.{Message, MessageAction}
use room_chat.Connection.{Client, Queue, ReadStep, reply, dispatch, read_message}
use room_chat.Connection.Gate.{read_message-dispatch}
use room_chat.User.{User}
use room_chat.Channel.{Channel}
use room_chat.Users.{Repository, Bcrypt}
use room_chat.Elastic.{SearchClient}
use room_chat.Store.{Store, done}
use room_chat.Server.Run.{registered, unregistered, dispatched, handle_event}
use room_chat.Server.Invariant.{IsValid, is_attached}
use room_chat.Server.Keeps.LoggingIn.{FindsByName}
use room_chat.Server.Events.{IsReady}
use room_chat.Server.Effects.{Ends-done, send-Ends}
use room_chat.Server.Logins.{SameClients-Allows}
use room_chat.Server.Reachable
use room_chat.Server.Reachable.{new_server, new_server-IsValid, Step-IsValid, IsUnused}
use room_chat.System.{
  System, absent, reading, closing, sending, is_live, after_frame, new_system, Step, serve_ws,
  run_register, read, answer, run_dispatch, run_handle, stop, run_unregister, write, writer_ends,
  Reach, here, next, take_first,
}
use room_chat.System.Invariant.{Owns, Inv, IsOnItsWay, way-live, way-Owns}
use room_chat.System.Effect.{
  Tame, SameClients-Tame, dispatched-Tame, registered-Comes, unregistered-Leaves,
}
use room_chat.System.Keeps.{
  waiting-IsNew, Tame-Inv, take-Inv, handled-Inv, quiet-Inv, connect-Inv, Comes-Inv, Leaves-Inv,
}
use room_chat.System.Handling.{NamesOnline, dispatched_done-IsReady}

session_of :
    (s : Store) (w : Text) (p : ℕ)
    → is_attached s w p ≡ true
    → (u : ℕ) × (lookup s.sessions w ≡ some u)
unfolding contains
session_of s w p e = elim (Option-cases (lookup s.sessions w)) [
  | inl offline ↦ absurd (ground (arith, offline))
  | inr online ↦ online
]

-- The user of a message on its way is online, unless it is a login.
pub sending-NamesOnline :
    (x : System) (p : ℕ) (m : Message)
    → Inv x
    → IsOnItsWay x p m
    → NamesOnline x.store m.action m.user
sending-NamesOnline x p m h way = elim ((way-Owns x p m h way).1) [
  | inl by_login ↦ inl by_login
  | inr (yes_in, name) ↦ inr (
      rw name (
        session_of x.store (x.store.client_at p).user p (
          sym (
            h.valid.conns.logged_in (x.store.client_at p).conn_id p
              (h.live p (way-live x p m h way)))
          ∙ yes_in)))
]

pub new_system-Inv :
    (client_at : ℕ → Client) (queue_at : ℕ → Queue) (user_at : ℕ → User) (channel_at : ℕ → Channel)
    → Inv (new_system client_at queue_at user_at channel_at)
unfolding new_system new_server lookup
new_system-Inv client_at queue_at user_at channel_at = record {
  valid = new_server-IsValid client_at queue_at user_at channel_at;
  fresh = λ p e. absurd (cc);
  live = λ p e. absurd (cc);
  known = λ id p e. absurd (cc);
  apart = λ p q e f. absurd (cc);
  own = λ p m e. absurd (cc);
  taken = λ p m e. absurd (cc);
}

module _ (repo : Repository) (bcrypt : Bcrypt) (search : SearchClient) {Frame : Type 0}
    (unmarshal : Frame → Text ⊎ Message) (validate : Message → Option Text) where
  frame-Owns :
      (x : System) (p : ℕ) (frame : Frame) (uuid : Text) (now : ℕ) (r : ReadStep)
      → read_message unmarshal validate (x.store.client_at p) uuid now frame ≡ r
      → (m : Message) → after_frame r ≡ sending m
      → Owns x.store p m
  frame-Owns x p frame uuid now (reply e) run m at_send = absurd (cc)
  frame-Owns x p frame uuid now (dispatch n) run m at_send =
      let same : n ≡ m = cc in
      let (y, parsed, fine, stamped, allowed) =
        read_message-dispatch unmarshal validate (x.store.client_at p) uuid now frame m
          (run ∙ ap dispatch same) in
      (ap Message.client_id stamped, owned allowed (ap Message.user stamped))
    where
      owned :
          {a : MessageAction} {b : Bool} {u v : Text}
          → (a ≡ MessageAction.login) ⊎ (b ≡ true)
          → u ≡ v
          → (a ≡ MessageAction.login) ⊎ ((b ≡ true) × (u ≡ v))
      owned (inl by_login) name = inl by_login
      owned (inr yes_in) name = inr (yes_in, name)

  reading-live : (r : ReadStep) → is_live (after_frame r) ≡ true
  reading-live (reply e) = refl
  reading-live (dispatch m) = refl

  unmade : (x : System) (p : ℕ) → Inv x → x.phase p ≡ absent → IsUnused x.store p
  unmade x p h nobody id e = ground (arith, h.known id p)

  same-Tame : (p : ℕ) (s : Store) → Tame p s s
  same-Tame p s = SameClients-Tame p s s (SameClients-Allows.same s)

  -- The sender of a message on its way is registered.
  pub sender :
      (x : System) (p : ℕ) (m : Message)
      → Inv x
      → IsOnItsWay x p m
      → lookup x.store.clients m.client_id ≡ some p
  sender x p m h way = rw (way-Owns x p m h way).0 (h.live p (way-live x p m h way))

  -- A message that `Run` handled to its end was ready, or changed nothing.
  pub run_handle-IsReady :
      (db : repo.Db) (x : System) (p : ℕ) (m : Message) (t : Store)
      → Inv x
      → IsOnItsWay x p m
      → handle_event repo bcrypt search db (dispatched m) x.store ≡ done tt t
      → IsReady x.store (dispatched m) ⊎ (x.store ≡ t)
  run_handle-IsReady db x p m t h way =
      dispatched_done-IsReady repo bcrypt search db m x.store t h.valid p (sender x p m h way)
        (sending-NamesOnline x p m h way)

  module _ (law : FindsByName repo) where
    pub Step-Inv : {x y : System} → Step repo bcrypt search unmarshal validate x y → Inv x → Inv y
    Step-Inv {x} (serve_ws p uuid nobody unique) h = connect-Inv x p uuid h nobody unique (
        Step-IsValid repo bcrypt search law (Reachable.connected p uuid (unmade x p h nobody) refl)
          h.valid)
    Step-Inv {x} (run_register db p t free at_register run) h =
        Comes-Inv x p t h at_register
          (registered-Comes repo bcrypt search db x.store t h.valid p run)
          (Step-IsValid repo bcrypt search law
            (Reachable.handled db (registered p) (waiting-IsNew x p h at_register) run) h.valid)
    Step-Inv {x} (read p frame uuid now at_read) h =
        Tame-Inv x p _ x.store h (rw at_read refl) (reading-live _)
          (frame-Owns x p frame uuid now _ refl) (same-Tame p x.store) h.valid
    Step-Inv {x} (answer p m t at_reply run) h =
        Tame-Inv x p reading t h (rw at_reply refl) refl (λ n e. absurd (cc))
          (SameClients-Tame p x.store t
            (Ends-done tt t (send-Ends SameClients-Allows p m x.store) run))
          (Step-IsValid repo bcrypt search law (Reachable.answered p m run) h.valid)
    Step-Inv {x} (run_dispatch p m free at_send) h =
        take-Inv x p m
          (Tame-Inv x p reading x.store h (rw at_send refl) refl (λ n e. absurd (cc))
            (same-Tame p x.store) h.valid)
          (h.own p m at_send)
    Step-Inv {x} (run_handle db p m t at_run run) h =
        handled-Inv x p t h (h.taken p m at_run).0
          (dispatched-Tame repo bcrypt search db x.store t h.valid p m (sender x p m h (inr at_run))
            run)
          (elim (run_handle-IsReady db x p m t h (inr at_run) run) [
            | inl ready ↦
                Step-IsValid repo bcrypt search law (Reachable.handled db (dispatched m) ready run)
                  h.valid
            | inr same ↦ subst IsValid same h.valid
          ])
    Step-Inv {x} (stop p at_read) h =
        Tame-Inv x p closing x.store h (rw at_read refl) refl (λ n e. absurd (cc))
          (same-Tame p x.store) h.valid
    Step-Inv {x} (run_unregister db p t free at_close run) h =
        Leaves-Inv x p t h free at_close
          (unregistered-Leaves repo bcrypt search db x.store t h.valid p
            (h.live p (rw at_close refl)) run)
          (Step-IsValid repo bcrypt search law
            (Reachable.handled db (unregistered p) (h.live p (rw at_close refl)) run) h.valid)
    Step-Inv (writer_ends p running) h = h
    Step-Inv {x} (write p m rest running full) h =
        quiet-Inv x (take_first p rest x.store) h
          (record { registry = refl; states = refl; shut = λ q. ground (arith, nat_beq_iff p q) })
          (Step-IsValid repo bcrypt search law (Reachable.written p m rest full refl) h.valid)

    Reach-keeps : {x y : System} → Inv x → Reach repo bcrypt search unmarshal validate x y → Inv y
    Reach-keeps h here = h
    Reach-keeps h (next r st) = Step-Inv st (Reach-keeps h r)

    -- If the repository finds users by their name: whatever the goroutines of all connections have
    -- done since the server started, the store is valid, the registry holds exactly the connections
    -- that `Run` has registered and not removed, identifiers are unique, and a message that a
    -- reader hands on, or that `Run` has received and not yet handled, bears the identifier of its
    -- connection, which is registered, and, unless it is a login, the user who is logged in on it.
    pub Reach-Inv :
        (client_at : ℕ → Client) (queue_at : ℕ → Queue) (user_at : ℕ → User)
        (channel_at : ℕ → Channel) {x : System}
        → Reach repo bcrypt search unmarshal validate
            (new_system client_at queue_at user_at channel_at)
            x
        → Inv x
    Reach-Inv client_at queue_at user_at channel_at r =
        Reach-keeps (new_system-Inv client_at queue_at user_at channel_at) r
