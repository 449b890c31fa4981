-- ===== src/Server/Stalls/Never.antt =====
-- Runs that do not come to their end, and what a run that meets a full queue does to it.
use room_chat.Prelude.{
  ℕ, nat_beq_iff, ◌≡◌, false, true, Bool, Option, none, some, Text, text_eq, nat_eq, arith, inl,
  inr, Bool-cases, if◌then◌else◌,
}
use room_chat.Protocol.{Message, ErrorType}
use room_chat.Connection.{has_room}
use room_chat.Store.{Store, Outcome, done, panicked, waits, Exec, continue, send}
use room_chat.Server.Replies.{send_error, send_response}
use room_chat.Server.Effects.{Ends, Allows, AllowsUsers, AllowsChannels}

-- The run does not come to its end.
abbrev pub Never {ℓ} : {A : Type ℓ} → Outcome A → Type 0
Never o = Ends o (λ t. ⊥)

pub first-Never {ℓ κ} :
    {A : Type ℓ} {B : Type κ} (o : Outcome A) (f : A → Exec B) → Never o → Never (continue o f)
first-Never (done a t) f n = absurd n.at
first-Never (panicked e) f n = record { at = tt }
first-Never (waits w) f n = record { at = tt }

pub if-Never {ℓ} :
    {A : Type ℓ} (b : Bool) (m n : Exec A) (s : Store)
    → Never (m s)
    → Never (n s)
    → Never ((if b then m else n) s)
if-Never true m n s first second = first
if-Never false m n s first second = second

pub option-Never {ℓ κ} :
    {A : Type ℓ} {X : Type κ} (o : Option X) (m : Exec A) (f : X → Exec A) (s : Store)
    → Never (m s)
    → ((x : X) → Never (f x s))
    → Never ((elim o as (λ _. Exec A) [ none ↦ m | some x ↦ f x ]) s)
option-Never none m f s absent present = absent
option-Never (some x) m f s absent present = present x

-- A queue that is full stays so.
pub record StaysFull (p : ℕ) (s t : Store) : Type 0 where
  pub full : has_room (s.queue_at p) ≡ false → has_room (t.queue_at p) ≡ false

pub StaysFull-Allows : (p : ℕ) → Allows (StaysFull p)
StaysFull-Allows p = record {
  same = λ s. record { full = λ h. h };
  trans = λ s t u st tu. record { full = λ h. tu.full (st.full h) };
  queued = λ q x s room. record { full = λ h. ground (arith, nat_beq_iff q p) };
  locked = λ l s. record { full = λ h. h };
}

pub users-Stay : (p : ℕ) → AllowsUsers (StaysFull p)
users-Stay p f n sessions s = record { full = λ h. h }

pub channels-Stay : (p : ℕ) → AllowsChannels (StaysFull p)
channels-Stay p f n rooms s = record { full = λ h. h }

module _ (p : ℕ) where
  pub later-Never {ℓ κ} :
      {A : Type ℓ} {B : Type κ} (s : Store) (o : Outcome A) (f : A → Exec B)
      → has_room (s.queue_at p) ≡ false
      → Ends o (StaysFull p s)
      → ((a : A) (t : Store) → has_room (t.queue_at p) ≡ false → Never (f a t))
      → Never (continue o f)
  later-Never s (done a t) f full first rest = rest a t (first.at.full full)
  later-Never s (panicked e) f full first rest = record { at = tt }
  later-Never s (waits w) f full first rest = record { at = tt }

  pub send-Never : (x : Message) (s : Store) → has_room (s.queue_at p) ≡ false → Never (send p x s)
  unfolding send
  send-Never x s full = elim (Bool-cases (s.queue_at p).closed) [
    | inl shut ↦ rw shut (record { at = tt })
    | inr opened ↦ rw (opened, full) (record { at = tt })
  ]

  pub error-Never :
      (message request_id : Text) (type : ErrorType) (s : Store)
      → has_room (s.queue_at p) ≡ false
      → Never (send_error p message request_id type s)
  unfolding send_error
  error-Never message request_id type s full = send-Never _ s full

  pub response-Never :
      (message request_id : Text) (s : Store)
      → has_room (s.queue_at p) ≡ false
      → Never (send_response p message request_id s)
  unfolding send_response
  response-Never message request_id s full = send-Never _ s full
