-- ===== src/Store.antt =====
-- The memory that the server's goroutine works on: the objects behind Go's pointers, each kind at
-- addresses of its own, the three maps that hold such pointers, and the mutex `mu` of the Server.
-- A run of a handler ends where a statement ends the process or blocks the goroutine.
--
-- Not in the store: the mutexes of the other objects, which their methods take and release around
-- one access, and the logger.
use room_chat.Prelude.{ℕ, zero, suc, true, List, Text, nat_eq, if◌then◌else◌}
use room_chat.Prelude.Maps.{update}
use room_chat.Connection.{Client, Queue, push, has_room}
use room_chat.User.{User}
use room_chat.Channel.{Channel}
use room_chat.Protocol.{Message}

-- A sync.RWMutex, as its holder sees it.
pub data Lock : Type 0 where
  free writing : Lock
  reading : ℕ → Lock

pub record Store : Type 0 where
  pub client_at : ℕ → Client
  pub queue_at : ℕ → Queue
  pub user_at : ℕ → User
  pub next_user : ℕ
  pub channel_at : ℕ → Channel
  pub next_channel : ℕ
  pub clients : List (Text × ℕ)
  pub sessions : List (Text × ℕ)
  pub rooms : List (Text × ℕ)
  pub mu : Lock

pub data Panic : Type 0 where
  send_on_closed close_of_closed nil_dereference slice_out_of_range unlock_of_unlocked : Panic

-- `on_lock`: the goroutine waits for a lock that it holds itself, so for ever. `on_queue p`: it
-- waits until the writing goroutine of client `p` takes a message from a full `send`.
pub data Wait : Type 0 where
  on_lock : Wait
  on_queue : ℕ → Wait

pub data Outcome {ℓ} (A : Type ℓ) : Type ℓ where
  done : A → Store → Outcome A
  panicked : Panic → Outcome A
  waits : Wait → Outcome A

abbrev pub Exec {ℓ} : Type ℓ → Type ℓ
Exec A = Store → Outcome A

abbrev pub continue {ℓ κ} : {A : Type ℓ} {B : Type κ} → Outcome A → (A → Exec B) → Outcome B
continue (done a s) f = f a s
continue (panicked e) f = panicked e
continue (waits w) f = waits w

infixl 5 ◌>>=◌ ◌>>◌
abbrev pub ◌>>=◌ {ℓ κ} : {A : Type ℓ} {B : Type κ} → Exec A → (A → Exec B) → Exec B
◌>>=◌ m f s = continue (m s) f

abbrev pub ◌>>◌ {ℓ} : {B : Type ℓ} → Exec (Unit {0}) → Exec B → Exec B
m >> k = m >>= λ _. k

abbrev pub pure {ℓ} : {A : Type ℓ} → A → Exec A
pure a s = done a s

abbrev pub panic {ℓ} : {A : Type ℓ} → Panic → Exec A
panic e s = panicked e

abbrev pub gets {ℓ} : {A : Type ℓ} → (Store → A) → Exec A
gets f s = done (f s) s

abbrev pub modify : (Store → Store) → Exec (Unit {0})
modify f s = done tt (f s)

abbrev pub set_mu : Lock → Exec (Unit {0})
set_mu l s = done tt (record s { mu = l })

-- s.mu.Lock()
abbrev pub lock_from : Lock → Exec (Unit {0})
lock_from free = set_mu writing
lock_from writing = λ _. waits on_lock
lock_from (reading n) = λ _. waits on_lock

abbrev pub lock : Exec (Unit {0})
lock s = lock_from s.mu s

-- s.mu.Unlock()
abbrev pub unlock_from : Lock → Exec (Unit {0})
unlock_from writing = set_mu free
unlock_from free = panic unlock_of_unlocked
unlock_from (reading n) = panic unlock_of_unlocked

abbrev pub unlock : Exec (Unit {0})
unlock s = unlock_from s.mu s

-- s.mu.RLock(): `reading n` has n + 1 holders.
abbrev pub rlock_from : Lock → Exec (Unit {0})
rlock_from free = set_mu (reading 0)
rlock_from (reading n) = set_mu (reading (suc n))
rlock_from writing = λ _. waits on_lock

abbrev pub rlock : Exec (Unit {0})
rlock s = rlock_from s.mu s

-- s.mu.RUnlock()
abbrev pub runlock_from : Lock → Exec (Unit {0})
runlock_from (reading zero) = set_mu free
runlock_from (reading (suc n)) = set_mu (reading n)
runlock_from free = panic unlock_of_unlocked
runlock_from writing = panic unlock_of_unlocked

abbrev pub runlock : Exec (Unit {0})
runlock s = runlock_from s.mu s

-- client.send <- m, which waits while the queue is full.
unfoldable pub send : ℕ → Message → Exec (Unit {0})
send p m s =
    if (s.queue_at p).closed
    then panicked send_on_closed
    else if has_room (s.queue_at p)
    then done tt (record s { queue_at = update s.queue_at p (push m (s.queue_at p)) })
    else waits (on_queue p)

-- What `select { case client.send <- m: default: }` leaves of an open queue.
abbrev pub offer : Message → Queue → Queue
offer m q = if has_room q then push m q else q

-- That select, which drops the message where the queue is full.
unfoldable pub try_send : ℕ → Message → Exec (Unit {0})
try_send p m s =
    if (s.queue_at p).closed
    then panicked send_on_closed
    else done tt (record s { queue_at = update s.queue_at p (offer m (s.queue_at p)) })

-- close(client.send)
unfoldable pub close : ℕ → Exec (Unit {0})
close p s =
    if (s.queue_at p).closed
    then panicked close_of_closed
    else done tt
        (record s { queue_at = update s.queue_at p (record (s.queue_at p) { closed = true }) })

-- A write through a pointer to each kind of object.
abbrev pub set_client : ℕ → (Client → Client) → Store → Store
set_client p f s = record s { client_at = update s.client_at p (f (s.client_at p)) }

abbrev pub set_user : ℕ → (User → User) → Store → Store
set_user u f s = record s { user_at = update s.user_at u (f (s.user_at u)) }

abbrev pub set_channel : ℕ → Channel → Store → Store
set_channel c ch s = record s { channel_at = update s.channel_at c ch }
