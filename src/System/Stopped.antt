-- ===== src/System/Stopped.antt =====
-- A `Run` that is blocked within a handler.
use room_chat.Prelude.{ℕ, ◌≡◌, Bool, true, false, nat_eq, text_eq}
use room_chat.Protocol.{Message}
use room_chat.Connection.{has_room}
use room_chat.User.{User}
use room_chat.Channel.{Channel}
use room_chat.Store.{Store}
use room_chat.System.{System, Phase, handling, waiting, sending, closing}
use room_chat.System.Answers.{is_handled}

-- The goroutine waits for `Run`.
abbrev pub waits_for_run : Phase → Bool
waits_for_run waiting = true
waits_for_run (sending m) = true
waits_for_run closing = true
waits_for_run _ = false

-- `Run` handles a message of a connection whose queue is full and whose writer has ended.
pub record IsStopped (p : ℕ) (m : Message) (x : System) : Type 0 where
  pub at_run : x.run ≡ handling p m
  pub handled : is_handled m.action ≡ true
  pub full : has_room (x.store.queue_at p) ≡ false
  pub ended : x.writing p ≡ false

-- `Run` has taken nothing: who waited for it waits, and the registry is the same.
pub record IsStill (x y : System) : Type 0 where
  pub waiters : (q : ℕ) → waits_for_run (x.phase q) ≡ true → y.phase q ≡ x.phase q
  pub registry : y.store.clients ≡ x.store.clients
