-- ===== src/Server/Answers.antt =====
-- How many answers to a request a run puts in the queues: the pushes to the members are none.
pub mod Logins
pub mod Quiet
pub mod Requests
use room_chat.Prelude.{
  ℕ, ◌+◌, ◌≡◌, ◌∙◌, refl, Bool, true, false, ◌&&◌, Text, text_beq, List, [], ◌∷◌, ◌++◌, nat_eq,
  text_eq, nat_beq, nat_beq_iff, text_beq_iff, arith, Bool-cases, Option-cases, inl, inr,
  if◌then◌else◌, subst, sym, Option, none, some,
}
use room_chat.Prelude.Maps.{lookup, update}
use room_chat.Protocol.{Message, MessageType, ErrorType}
use room_chat.Connection.{Queue, has_room, push}
use room_chat.Channel.{system_push, welcome_message, leave_message, push_message}
use room_chat.Store.{Store, Outcome, done, panicked, waits, Exec, continue, send, try_send, offer}
use room_chat.Sessions.{send_to_each, send_event, send_message_to}
use room_chat.Rooms.{
  send_to_members, channel_send, send_welcome_message, send_leave_message, channel_send_message,
}
use room_chat.Server.Replies.{send_error, send_response, error_message, response_message}
use room_chat.Server.Effects.{Ends, done-Ends}
use room_chat.Server.Logins.{Ends-mono}

abbrev pub is_response : MessageType → Bool
is_response MessageType.response = true
is_response _ = false

-- The answers to the request `r` among these messages.
abbrev pub answers : Text → List Message → ℕ
answers r [] = 0
answers r (m ∷ ms) = (if is_response m.type && text_beq m.request_id r then 1 else 0) + answers r ms

pub answers-append :
    (r : Text) (xs : List Message) (x : Message)
    → answers r (xs ++ x ∷ [])
      ≡ answers r xs + (if is_response x.type && text_beq x.request_id r then 1 else 0)
answers-append r [] x = omega arith
answers-append r (m ∷ xs) x = omega (arith, answers-append r xs x)

-- No answer was queued, or one, to this request, for `p`.
pub record NoAnswer (s t : Store) : Type 0 where
  pub same : (q : ℕ) (r : Text) → answers r (t.queue_at q).buffer ≡ answers r (s.queue_at q).buffer

pub record OneAnswer (p : ℕ) (id : Text) (s t : Store) : Type 0 where
  pub once :
      (q : ℕ) (r : Text)
      → answers r (t.queue_at q).buffer
        ≡ answers r (s.queue_at q).buffer + (if nat_beq p q && text_beq id r then 1 else 0)

pub NoAnswer-refl : (s : Store) → NoAnswer s s
NoAnswer-refl s = record { same = λ q r. refl }

-- From a store with the same answers.
pub from-OneAnswer :
    (p : ℕ) (id : Text) (s t : Store) (o : Outcome (Unit {0}))
    → NoAnswer s t
    → Ends o (OneAnswer p id t)
    → Ends o (OneAnswer p id s)
from-OneAnswer p id s t o first rest =
    Ends-mono o (OneAnswer p id t) (OneAnswer p id s)
      (λ u k. record { once = λ q r. k.once q r ∙ rw (first.same q r) refl }) rest

pub before-OneAnswer {ℓ} :
    {A : Type ℓ} (p : ℕ) (id : Text) (s : Store) (o : Outcome A) (f : A → Exec (Unit {0}))
    → Ends o (NoAnswer s)
    → ((a : A) (t : Store) → o ≡ done a t → Ends (f a t) (OneAnswer p id t))
    → Ends (continue o f) (OneAnswer p id s)
before-OneAnswer p id s (done a t) f first rest =
    from-OneAnswer p id s t (f a t) first.at (rest a t refl)
before-OneAnswer p id s (panicked e) f first rest = record { at = tt }
before-OneAnswer p id s (waits w) f first rest = record { at = tt }

pub after-OneAnswer {ℓ} :
    {A : Type ℓ} (p : ℕ) (id : Text) (s : Store) (o : Outcome A) (f : A → Exec (Unit {0}))
    → Ends o (OneAnswer p id s)
    → ((a : A) (t : Store) → Ends (f a t) (NoAnswer t))
    → Ends (continue o f) (OneAnswer p id s)
after-OneAnswer p id s (done a t) f first rest =
    Ends-mono (f a t) (NoAnswer t) (OneAnswer p id s)
      (λ u k. record { once = λ q r. k.same q r ∙ first.at.once q r }) (rest a t)
after-OneAnswer p id s (panicked e) f first rest = record { at = tt }
after-OneAnswer p id s (waits w) f first rest = record { at = tt }

pub then-NoAnswer {ℓ} :
    {A : Type ℓ} (s : Store) (o : Outcome A) (f : A → Exec (Unit {0}))
    → Ends o (NoAnswer s)
    → ((a : A) (t : Store) → Ends (f a t) (NoAnswer t))
    → Ends (continue o f) (NoAnswer s)
then-NoAnswer s (done a t) f first rest =
    Ends-mono (f a t) (NoAnswer t) (NoAnswer s)
      (λ u k. record { same = λ q r. k.same q r ∙ first.at.same q r }) (rest a t)
then-NoAnswer s (panicked e) f first rest = record { at = tt }
then-NoAnswer s (waits w) f first rest = record { at = tt }

send-OneAnswer :
    (p : ℕ) (x : Message) (s : Store)
    → is_response x.type ≡ true
    → Ends (send p x s) (OneAnswer p x.request_id s)
unfolding send
send-OneAnswer p x s response = elim (Bool-cases (s.queue_at p).closed) [
  | inl shut ↦ rw shut (record { at = tt })
  | inr opened ↦ elim (Bool-cases (has_room (s.queue_at p))) [
    | inl room ↦
        rw (opened, room)
          (done-Ends (record {
            once = λ q r.
                ground (arith, response, answers-append r (s.queue_at p).buffer x, nat_beq_iff p q);
          }))
    | inr full ↦ rw (opened, full) (record { at = tt })
  ]
]

try_send-NoAnswer :
    (p : ℕ) (x : Message) (s : Store)
    → is_response x.type ≡ false
    → Ends (try_send p x s) (NoAnswer s)
unfolding try_send
try_send-NoAnswer p x s is_push = elim (Bool-cases (s.queue_at p).closed) [
  | inl shut ↦ rw shut (record { at = tt })
  | inr opened ↦ rw opened (
      done-Ends (record {
        same = λ q r.
            ground (arith, is_push, answers-append r (s.queue_at p).buffer x, nat_beq_iff p q);
      }))
]

pub send_error-OneAnswer :
    (p : ℕ) (message request_id : Text) (type : ErrorType) (s : Store)
    → Ends (send_error p message request_id type s) (OneAnswer p request_id s)
unfolding send_error error_message
send_error-OneAnswer p message request_id type s =
    send-OneAnswer p (error_message message request_id type) s refl

pub send_response-OneAnswer :
    (p : ℕ) (message request_id : Text) (s : Store)
    → Ends (send_response p message request_id s) (OneAnswer p request_id s)
unfolding send_response response_message
send_response-OneAnswer p message request_id s =
    send-OneAnswer p (response_message message request_id) s refl

module _ (x : Message) (is_push : is_response x.type ≡ false) where
  send_to_each-NoAnswer : (ps : List ℕ) (s : Store) → Ends (send_to_each ps x s) (NoAnswer s)
  unfolding send_to_each
  send_to_each-NoAnswer [] s = done-Ends (NoAnswer-refl s)
  send_to_each-NoAnswer (p ∷ ps) s =
      then-NoAnswer s _ _ (try_send-NoAnswer p x s is_push) (λ _ t. send_to_each-NoAnswer ps t)

  send_message_to-NoAnswer : (w : Text) (s : Store) → Ends (send_message_to w x s) (NoAnswer s)
  unfolding send_message_to send_event
  send_message_to-NoAnswer w s = elim (Option-cases (lookup s.sessions w)) [
    | inl offline ↦ rw offline (done-Ends (NoAnswer-refl s))
    | inr (u, online) ↦ rw online (send_to_each-NoAnswer (s.user_at u).connections s)
  ]

  send_to_members-NoAnswer :
      (ws : List Text) (s : Store) → Ends (send_to_members ws x s) (NoAnswer s)
  unfolding send_to_members
  send_to_members-NoAnswer [] s = done-Ends (NoAnswer-refl s)
  send_to_members-NoAnswer (w ∷ ws) s =
      then-NoAnswer s _ _ (send_message_to-NoAnswer w s) (λ _ t. send_to_members-NoAnswer ws t)

  channel_send-NoAnswer : (c : ℕ) (s : Store) → Ends (channel_send c x s) (NoAnswer s)
  unfolding channel_send
  channel_send-NoAnswer c s = send_to_members-NoAnswer (s.channel_at c).users s

pub send_welcome_message-NoAnswer :
    (c : ℕ) (w : Text) (s : Store) → Ends (send_welcome_message c w s) (NoAnswer s)
unfolding send_welcome_message welcome_message system_push
send_welcome_message-NoAnswer c w s =
    channel_send-NoAnswer (welcome_message (s.channel_at c).name w) refl c s

pub send_leave_message-NoAnswer :
    (c : ℕ) (w : Text) (s : Store) → Ends (send_leave_message c w s) (NoAnswer s)
unfolding send_leave_message leave_message system_push
send_leave_message-NoAnswer c w s =
    channel_send-NoAnswer (leave_message (s.channel_at c).name w) refl c s

pub channel_send_message-NoAnswer :
    (c : ℕ) (m : Message) (s : Store) → Ends (channel_send_message c m s) (NoAnswer s)
unfolding channel_send_message push_message
channel_send_message-NoAnswer c m s =
    channel_send-NoAnswer (push_message (s.channel_at c).name m) refl c s
