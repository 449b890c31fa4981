-- ===== src/Server/Effects.antt =====
-- What a run may do to the store, as a relation between its start and its end: one rule for each
-- way to build a run. A handler is then followed through by its own shape.
pub mod Sends
pub mod Logins
pub mod Joins
pub mod Leaves
pub mod Events
use room_chat.Prelude.{
  nat_beq_iff, arith, subst, sym, fun_ext, ℕ, zero, suc, ◌≡◌, refl, Bool, true, false, Option, none,
  some, List, Text, nat_eq, if◌then◌else◌, Bool-cases, inl, inr,
}
use room_chat.Prelude.Maps.{update}
use room_chat.Protocol.{Message, ErrorType}
use room_chat.Connection.{Client, Queue, has_room, push}
use room_chat.User.{User}
use room_chat.Channel.{Channel}
use room_chat.Store.{
  Store, Lock, free, writing, reading, Outcome, done, panicked, waits, Panic, Exec, ◌>>=◌, ◌>>◌,
  continue, pure, panic, gets, modify, set_mu, lock, lock_from, unlock, unlock_from, rlock,
  rlock_from, runlock, runlock_from, send, try_send, close, send_on_closed, close_of_closed,
  on_queue, offer,
}
use room_chat.Server.Replies.{send_error, send_response}

-- If the run ends, its store has the property.
abbrev EndsIn {ℓ} : {A : Type ℓ} → Outcome A → (Store → Type 0) → Type 0
EndsIn (done a t) P = P t
EndsIn (panicked e) P = Unit
EndsIn (waits w) P = Unit

pub record Ends {ℓ} {A : Type ℓ} (o : Outcome A) (P : Store → Type 0) : Type 0 where
  pub at : EndsIn o P

pub done-Ends {ℓ} : {A : Type ℓ} {a : A} {t : Store} {P : Store → Type 0} → P t → Ends (done a t) P
done-Ends h = record { at = h }

pub Ends-done {ℓ} :
    {A : Type ℓ} {o : Outcome A} {P : Store → Type 0} (a : A) (t : Store)
    → Ends o P
    → o ≡ done a t
    → P t
Ends-done {P = P} a t h e = (subst (λ o. EndsIn o P) e h.at)

-- A relation that sending, and taking and releasing the lock, respect.
pub record Allows (R : Store → Store → Type 0) : Type 0 where
  pub same : (s : Store) → R s s
  pub trans : (s t u : Store) → R s t → R t u → R s u
  pub queued :
      (p : ℕ) (x : Message) (s : Store)
      → has_room (s.queue_at p) ≡ true
      → R s (record s { queue_at = update s.queue_at p (push x (s.queue_at p)) })
  pub locked : (l : Lock) (s : Store) → R s (record s { mu = l })

-- It respects writes to the users and their sessions; to the channels; to a client's login; to the
-- map of clients; closing.
abbrev pub AllowsUsers : (Store → Store → Type 0) → Type 0
AllowsUsers R =
    (f : ℕ → User) (n : ℕ) (sessions : List (Text × ℕ)) (s : Store)
    → R s (record s { user_at = f; next_user = n; sessions = sessions })

abbrev pub AllowsChannels : (Store → Store → Type 0) → Type 0
AllowsChannels R =
    (f : ℕ → Channel) (n : ℕ) (rooms : List (Text × ℕ)) (s : Store)
    → R s (record s { channel_at = f; next_channel = n; rooms = rooms })

abbrev pub AllowsLogin : (Store → Store → Type 0) → Type 0
AllowsLogin R = (f : ℕ → Client) (s : Store) → R s (record s { client_at = f })

abbrev pub AllowsRegistry : (Store → Store → Type 0) → Type 0
AllowsRegistry R = (clients : List (Text × ℕ)) (s : Store) → R s (record s { clients = clients })

abbrev pub AllowsClose : (Store → Store → Type 0) → Type 0
AllowsClose R =
    (p : ℕ) (s : Store)
    → R s (record s { queue_at = update s.queue_at p (record (s.queue_at p) { closed = true }) })

update_same : {A : Type 0} (f : ℕ → A) (p : ℕ) → update f p (f p) ≡ f
update_same f p = fun_ext λ q. ground (arith, nat_beq_iff p q)

module _ {R : Store → Store → Type 0} (allows : Allows R) where
  pub Ends-after {ℓ} :
      {A : Type ℓ} (s t : Store) (o : Outcome A) → R s t → Ends o (R t) → Ends o (R s)
  Ends-after s t (done a u) first rest = done-Ends (allows.trans s t u first rest.at)
  Ends-after s t (panicked e) first rest = record { at = tt }
  Ends-after s t (waits w) first rest = record { at = tt }

  pub Ends-continue {ℓ κ} :
      {A : Type ℓ} {B : Type κ} {s : Store} {o : Outcome A} {f : A → Exec B}
      → Ends o (R s)
      → ((a : A) (t : Store) → Ends (f a t) (R t))
      → Ends (continue o f) (R s)
  Ends-continue {s = s} {o = done a t} {f = f} first rest =
      Ends-after s t (f a t) first.at (rest a t)
  Ends-continue {o = panicked e} first rest = record { at = tt }
  Ends-continue {o = waits w} first rest = record { at = tt }

  pub Ends-if {ℓ} :
      {A : Type ℓ} (b : Bool) (m n : Exec A) (s : Store)
      → Ends (m s) (R s)
      → Ends (n s) (R s)
      → Ends ((if b then m else n) s) (R s)
  Ends-if true m n s yes_run no_run = yes_run
  Ends-if false m n s yes_run no_run = no_run

  pub Ends-option {ℓ κ} :
      {A : Type ℓ} {X : Type κ} (o : Option X) (m : Exec A) (f : X → Exec A) (s : Store)
      → Ends (m s) (R s)
      → ((x : X) → Ends (f x s) (R s))
      → Ends ((elim o as (λ _. Exec A) [ none ↦ m | some x ↦ f x ]) s) (R s)
  Ends-option none m f s absent present = absent
  Ends-option (some x) m f s absent present = present x

  lock_from-Ends : (l : Lock) (s : Store) → Ends (lock_from l s) (R s)
  lock_from-Ends free s = done-Ends (allows.locked writing s)
  lock_from-Ends writing s = record { at = tt }
  lock_from-Ends (reading n) s = record { at = tt }

  pub lock-Ends : (s : Store) → Ends (lock s) (R s)
  lock-Ends s = lock_from-Ends s.mu s

  unlock_from-Ends : (l : Lock) (s : Store) → Ends (unlock_from l s) (R s)
  unlock_from-Ends writing s = done-Ends (allows.locked free s)
  unlock_from-Ends free s = record { at = tt }
  unlock_from-Ends (reading n) s = record { at = tt }

  pub unlock-Ends : (s : Store) → Ends (unlock s) (R s)
  unlock-Ends s = unlock_from-Ends s.mu s

  rlock_from-Ends : (l : Lock) (s : Store) → Ends (rlock_from l s) (R s)
  rlock_from-Ends free s = done-Ends (allows.locked (reading 0) s)
  rlock_from-Ends (reading n) s = done-Ends (allows.locked (reading (suc n)) s)
  rlock_from-Ends writing s = record { at = tt }

  pub rlock-Ends : (s : Store) → Ends (rlock s) (R s)
  rlock-Ends s = rlock_from-Ends s.mu s

  runlock_from-Ends : (l : Lock) (s : Store) → Ends (runlock_from l s) (R s)
  runlock_from-Ends (reading zero) s = done-Ends (allows.locked free s)
  runlock_from-Ends (reading (suc n)) s = done-Ends (allows.locked (reading n) s)
  runlock_from-Ends free s = record { at = tt }
  runlock_from-Ends writing s = record { at = tt }

  pub runlock-Ends : (s : Store) → Ends (runlock s) (R s)
  runlock-Ends s = runlock_from-Ends s.mu s

  queued-Ends :
      (p : ℕ) (x : Message) (s : Store) (closed room : Bool)
      → has_room (s.queue_at p) ≡ room
      → Ends {0}
          (if closed
            then panicked send_on_closed
            else if room
            then done tt (record s { queue_at = update s.queue_at p (push x (s.queue_at p)) })
            else waits (on_queue p))
          (R s)
  queued-Ends p x s true room e = record { at = tt }
  queued-Ends p x s false true e = done-Ends (allows.queued p x s e)
  queued-Ends p x s false false e = record { at = tt }

  pub send-Ends : (p : ℕ) (x : Message) (s : Store) → Ends (send p x s) (R s)
  unfolding send
  send-Ends p x s = queued-Ends p x s (s.queue_at p).closed _ refl

  offered :
      (p : ℕ) (x : Message) (s : Store) (room : Bool)
      → has_room (s.queue_at p) ≡ room
      → R s (record s {
        queue_at = update s.queue_at p (if room then push x (s.queue_at p) else s.queue_at p);
      })
  offered p x s true e = allows.queued p x s e
  offered p x s false e =
      subst (λ q. R s (record s { queue_at = q })) (sym (update_same s.queue_at p)) (allows.same s)

  offered-Ends :
      (p : ℕ) (x : Message) (s : Store) (closed : Bool)
      → Ends {0}
          (if closed
            then panicked send_on_closed
            else done tt (record s { queue_at = update s.queue_at p (offer x (s.queue_at p)) }))
          (R s)
  offered-Ends p x s true = record { at = tt }
  offered-Ends p x s false = done-Ends (offered p x s _ refl)

  pub try_send-Ends : (p : ℕ) (x : Message) (s : Store) → Ends (try_send p x s) (R s)
  unfolding try_send
  try_send-Ends p x s = offered-Ends p x s (s.queue_at p).closed

  pub send_error-Ends :
      (p : ℕ) (message request_id : Text) (type : ErrorType) (s : Store)
      → Ends (send_error p message request_id type s) (R s)
  unfolding send_error
  send_error-Ends p message request_id type s = send-Ends p _ s

  pub send_response-Ends :
      (p : ℕ) (message request_id : Text) (s : Store)
      → Ends (send_response p message request_id s) (R s)
  unfolding send_response
  send_response-Ends p message request_id s = send-Ends p _ s

  closed-Ends :
      AllowsClose R
      → (p : ℕ) (s : Store) (closed : Bool)
      → Ends {0}
          (if closed
            then panicked close_of_closed
            else done tt (record s {
              queue_at = update s.queue_at p (record (s.queue_at p) { closed = true });
            }))
          (R s)
  closed-Ends closes p s true = record { at = tt }
  closed-Ends closes p s false = done-Ends (closes p s)

  pub close-Ends : AllowsClose R → (p : ℕ) (s : Store) → Ends (close p s) (R s)
  unfolding close
  close-Ends closes p s = closed-Ends closes p s (s.queue_at p).closed
