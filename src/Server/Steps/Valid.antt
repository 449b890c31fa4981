-- ===== src/Server/Steps/Valid.antt =====
-- Runs that end in a valid store, and those that only answer a client.
use room_chat.Prelude.{
  ℕ, ◌≡◌, ◌∙◌, refl, true, false, text_eq, Text, Option, some, arith, length, ltb, nat_eq, inl, inr,
  text_beq, text_beq_iff, Bool-cases,
}
use room_chat.Prelude.Maps.{lookup}
use room_chat.Protocol.{ErrorType}
use room_chat.Connection.{Queue, has_room}
use room_chat.Store.{Store, Outcome, done, panicked, waits, Lock, free, Exec, continue, ◌>>◌}
use room_chat.Server.Replies.{send_error, send_response, error_message, response_message}
use room_chat.Server.Invariant.{Conns, Rooms, Populated, IsValid, session}
use room_chat.Server.Steps.Frame.{Rooms-frame, Conns-frame, SameClosed}
use room_chat.Server.Steps.Sends.{Queues, send-Queues, Conns-SessionsOpen}
use room_chat.Sending.{SessionsOpen}

-- The run comes to its end, in a store with the property.
abbrev pub Returns : Outcome (Unit {0}) → (Store → Type 0) → Type 0
Returns (done a s) P = P s
Returns (panicked e) P = ⊥
Returns (waits w) P = ⊥

-- The store with another state of the lock.
abbrev pub with_mu : Lock → Store → Store
with_mu l s = record s { mu = l }

-- The sender of the message, if registered, has room in its queue for the answer.
abbrev pub HasRoom : Store → Text → Type 0
HasRoom s id = (p : ℕ) → lookup s.clients id ≡ some p → has_room (s.queue_at p) ≡ true

-- The invariant but for the lock, with the users that `dir` finds as the possible members.
pub record IsSoundFor (dir : Text → Option ℕ) (s : Store) : Type 0 where
  pub conns : Conns s
  pub rooms : Rooms dir s
  pub populated : Populated s

abbrev pub IsSound : Store → Type 0
IsSound s = IsSoundFor (session s) s

pub IsSound-IsValid : {s : Store} → IsSound s → IsValid (with_mu free s)
IsSound-IsValid {s} h = record {
  unlocked = refl;
  conns =
      Conns-frame s.user_at s.channel_at s.next_channel s.rooms s.queue_at free (λ v. (refl, refl))
        (λ p. refl) h.conns;
  rooms = Rooms-frame s.client_at s.queue_at s.clients s.sessions free h.rooms;
  populated = h.populated;
}

pub IsSound-frame :
    {dir : Text → Option ℕ} {s : Store} (q : ℕ → Queue) (l : Lock)
    → SameClosed q s.queue_at
    → IsSoundFor dir s
    → IsSoundFor dir (record s { queue_at = q; mu = l })
IsSound-frame {s = s} q l same h = record {
  conns =
      Conns-frame s.user_at s.channel_at s.next_channel s.rooms q l (λ v. (refl, refl)) same
        h.conns;
  rooms = Rooms-frame s.client_at q s.clients s.sessions l h.rooms;
  populated = h.populated;
}

pub IsValid-IsSound : {s : Store} → IsValid s → IsSound s
IsValid-IsSound h = record { conns = h.conns; rooms = h.rooms; populated = h.populated }

-- What a run may leave that starts in `s` and only queues messages.
abbrev pub AfterQueues : Store → (Store → Type 0) → Type 0
AfterQueues s P =
    (q : ℕ → Queue) → SameClosed q s.queue_at → P (record s { queue_at = q; mu = free })

pub IsSound-AfterQueues : {s : Store} → IsSound s → AfterQueues s IsValid
IsSound-AfterQueues {s} h q same = IsSound-IsValid (IsSound-frame q s.mu same h)

-- A run that only queues messages, with the lock free.
pub Returns-Queues :
    (s : Store) (o : Outcome (Unit {0})) (P : Store → Type 0)
    → AfterQueues s P
    → Queues (with_mu free s) o
    → Returns o P
Returns-Queues s o P after (q, e, same) = rw e (after q same)

module _ (p : ℕ) (s : Store) (opened : (s.queue_at p).closed ≡ false)
    (room : has_room (s.queue_at p) ≡ true) where
  pub send_error-Queues :
      (message request_id : Text) (type : ErrorType)
      → Queues s (send_error p message request_id type s)
  unfolding send_error
  send_error-Queues message request_id type =
      send-Queues p (error_message message request_id type) s opened room

  pub send_response-Queues :
      (message request_id : Text) → Queues s (send_response p message request_id s)
  unfolding send_response
  send_response-Queues message request_id =
      send-Queues p (response_message message request_id) s opened room

-- One run after another.
pub Queues-continue :
    (s : Store) (o : Outcome (Unit {0})) (f : Unit {0} → Exec (Unit {0})) (P : Store → Type 0)
    → Queues s o
    → ((q : ℕ → Queue) → SameClosed q s.queue_at → Returns (f tt (record s { queue_at = q })) P)
    → Returns (continue o f) P
Queues-continue s o f P (q, e, same) rest = rw e (rest q same)

-- The end of a handler that went well: the answer, and a push to the channel.
pub respond-Returns :
    (p : ℕ) (message request_id : Text) (notify : Exec (Unit {0})) (P : Store → Type 0)
    → ((s : Store) → SessionsOpen s → Queues s (notify s))
    → (s : Store) → Conns s
    → AfterQueues s P
    → (s.queue_at p).closed ≡ false
    → has_room (s.queue_at p) ≡ true
    → Returns ((send_response p message request_id >> notify) (with_mu free s)) P
respond-Returns p message request_id notify P quiet s h after opened room =
    Queues-continue (with_mu free s) _ (λ _. notify) P
      (send_response-Queues p (with_mu free s) opened room message request_id)
      λ q same.
        let s' = record s { queue_at = q } in
        let conns =
          Conns-frame s.user_at s.channel_at s.next_channel s.rooms q free (λ v. (refl, refl)) same
            h in
        Returns-Queues s' _ P (λ r same'. after r (λ v. same' v ∙ same v))
          (quiet (with_mu free s') (Conns-SessionsOpen conns))

-- A handler that only answers with an error.
pub refuse-Returns :
    (p : ℕ) (message request_id : Text) (type : ErrorType) (P : Store → Type 0) (s : Store)
    → AfterQueues s P
    → (s.queue_at p).closed ≡ false
    → has_room (s.queue_at p) ≡ true
    → Returns (send_error p message request_id type (with_mu free s)) P
refuse-Returns p message request_id type P s after opened room =
    Returns-Queues s _ P after
      (send_error-Queues p (with_mu free s) opened room message request_id type)

-- No channel but `n` is empty.
abbrev pub PopulatedBut : Text → Store → Type 0
PopulatedBut n s =
    (n' : Text) (c : ℕ)
    → lookup s.rooms n' ≡ some c
    → text_beq n n' ≡ false
    → ltb 0 (length (s.channel_at c).users) ≡ true

pub Populated-filled :
    (n : Text) (c : ℕ) (s : Store)
    → PopulatedBut n s
    → lookup s.rooms n ≡ some c
    → ltb 0 (length (s.channel_at c).users) ≡ true
    → Populated s
Populated-filled n c s but room filled n' c' e = elim (Bool-cases (text_beq n n')) [
  | inl same ↦ ground (arith, text_beq_iff n n')
  | inr other ↦ but n' c' e other
]

pub Returns-IsValid :
    (o : Outcome (Unit {0})) (P : Store → Type 0)
    → Returns o (λ t. IsValid t × P t)
    → Returns o IsValid
Returns-IsValid (done a t) P r = r.0
Returns-IsValid (panicked e) P r = r
Returns-IsValid (waits w) P r = r
