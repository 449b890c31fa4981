-- ===== src/System/Answers.antt =====
-- The answers that `Run` queues for the requests of the connections.
use room_chat.Prelude.{
  ℕ, ◌+◌, ◌≡◌, ◌⊎◌, refl, Bool, true, false, ◌&&◌, Option, some, Text, text_beq, text_eq, nat_eq,
  nat_beq, arith, subst, sym, inl, inr, if◌then◌else◌,
}
use room_chat.Prelude.Maps.{lookup}
use room_chat.Protocol.{Message, MessageAction, join, leave, text_message, login}
use room_chat.Connection.{Client, Queue}
use room_chat.User.{User}
use room_chat.Channel.{Channel}
use room_chat.Users.{Repository, Bcrypt}
use room_chat.Elastic.{SearchClient}
use room_chat.Store.{Store, Outcome, done, free}
use room_chat.Server.Run.{dispatched, dispatch_action, handle_message, handle_event}
use room_chat.Server.Keeps.LoggingIn.{FindsByName}
use room_chat.Server.Steps.Valid.{with_mu}
use room_chat.Server.Effects.{Ends, Ends-done, done-Ends}
use room_chat.Server.Logins.{Ends-mono}
use room_chat.Server.Answers.{answers, OneAnswer}
use room_chat.Server.Answers.Requests.{
  handle_send_message-OneAnswer, handle_join_channel-OneAnswer, handle_leave_channel-OneAnswer,
}
use room_chat.Server.Answers.Logins.{handle_login-OneAnswer}
use room_chat.System.{System, new_system, Reach}
use room_chat.System.Invariant.{Inv, IsOnItsWay}
use room_chat.System.Handling.{NamesOnline}
use room_chat.System.Reached.{Reach-Inv, sender, sending-NamesOnline}

-- The actions that have a handler.
abbrev pub is_handled : MessageAction → Bool
is_handled join = true
is_handled leave = true
is_handled text_message = true
is_handled login = true
is_handled _ = false

-- The answers of `t` are those of `s`, and one to the message if its action has a handler.
pub record Answered (p : ℕ) (act : MessageAction) (id : Text) (s t : Store) : Type 0 where
  pub count :
      (q : ℕ) (r : Text)
      → answers r (t.queue_at q).buffer
        ≡ answers r (s.queue_at q).buffer
          + (if is_handled act && (nat_beq p q && text_beq id r) then 1 else 0)

one-Answered :
    (p : ℕ) (act : MessageAction) (id : Text) (s : Store) (o : Outcome (Unit {0}))
    → is_handled act ≡ true
    → Ends o (OneAnswer p id (with_mu free s))
    → Ends o (Answered p act id s)
one-Answered p act id s o handled =
    Ends-mono o (OneAnswer p id (with_mu free s)) (Answered p act id s)
      (λ t k. record { count = λ q r. rw handled (k.once q r) })

module _ (repo : Repository) (bcrypt : Bcrypt) (search : SearchClient) where
  dispatch_action-Answered :
      (db : repo.Db) (p : ℕ) (act : MessageAction) (m : Message) (s : Store)
      → NamesOnline s act m.user
      → lookup s.clients m.client_id ≡ some p
      → Ends
          (dispatch_action repo bcrypt search db act m (with_mu free s))
          (Answered p act m.request_id s)
  unfolding dispatch_action
  dispatch_action-Answered db p join m s (inl by_login) known = absurd (cc)
  dispatch_action-Answered db p join m s (inr (u, online)) known =
      one-Answered p join m.request_id s _ refl (handle_join_channel-OneAnswer p m s u online known)
  dispatch_action-Answered db p leave m s names known =
      one-Answered p leave m.request_id s _ refl (handle_leave_channel-OneAnswer p m s known)
  dispatch_action-Answered db p text_message m s names known =
      one-Answered p text_message m.request_id s _ refl
        (handle_send_message-OneAnswer p m search s known)
  dispatch_action-Answered db p login m s names known =
      one-Answered p login m.request_id s _ refl (handle_login-OneAnswer p m repo bcrypt db s known)
  dispatch_action-Answered db p _ m s names known =
      done-Ends (record { count = λ q r. omega arith })

  module _ {Frame : Type 0} (unmarshal : Frame → Text ⊎ Message) (validate : Message → Option Text)
      (law : FindsByName repo) (db : repo.Db) where
    sending-Answered :
        (x : System) (p : ℕ) (m : Message) (t : Store)
        → Inv x
        → IsOnItsWay x p m
        → handle_event repo bcrypt search db (dispatched m) x.store ≡ done tt t
        → Answered p m.action m.request_id x.store t
    unfolding handle_event handle_message
    sending-Answered x p m t h at_it =
        subst
          (λ l.
            dispatch_action repo bcrypt search db m.action m (with_mu l x.store) ≡ done tt t
            → Answered p m.action m.request_id x.store t)
          (sym h.valid.unlocked)
          (Ends-done tt t (
            dispatch_action-Answered db p m.action m x.store (sending-NamesOnline x p m h at_it)
              (sender repo bcrypt search unmarshal validate x p m h at_it)))

    -- If the repository finds users by their name: whatever the goroutines of all connections have
    -- done since the server started, a message that a reader hands on, or that `Run` has received,
    -- and that `Run` handles to its end. If its action is one of join, leave, message and login,
    -- the queue of the connection that it came from has one answer to its request more, whether the
    -- request was granted or refused; the answers to any other request, and those in any other
    -- queue, are as many as before. With any other action no queue has an answer more or less.
    pub Reach-answers :
        (client_at : ℕ → Client) (queue_at : ℕ → Queue) (user_at : ℕ → User)
        (channel_at : ℕ → Channel) {x : System}
        → Reach repo bcrypt search unmarshal validate
            (new_system client_at queue_at user_at channel_at)
            x
        → (p : ℕ) (m : Message) (t : Store) → IsOnItsWay x p m
        → handle_event repo bcrypt search db (dispatched m) x.store ≡ done tt t
        → (q : ℕ) (r : Text)
        → answers r (t.queue_at q).buffer
          ≡ answers r (x.store.queue_at q).buffer
            + (if is_handled m.action && (nat_beq p q && text_beq m.request_id r) then 1 else 0)
    Reach-answers client_at queue_at user_at channel_at {x} reached p m t at_it run =
        (sending-Answered x p m t
          (Reach-Inv repo bcrypt search unmarshal validate law client_at queue_at user_at channel_at
            reached)
          at_it run).count
