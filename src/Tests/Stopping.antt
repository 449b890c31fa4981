-- ===== src/Tests/Stopping.antt =====
-- A client that fills its queue with errors, while its writer has ended, and then asks for a login.
use room_chat.Prelude.{
  ℕ, zero, suc, ◌<◌, ◌≤◌, ◌≡◌, ◌∙◌, refl, true, false, lt→ltb, length, length-append, [], ◌∷◌, text,
  text_eq, nat_eq, arith,
}
use room_chat.Protocol.{Message}
use room_chat.Connection.{has_room, error_reply, read_message, new_client, empty_queue}
use room_chat.Server.Reachable.{send_open, new_server}
use room_chat.Server.Run.{handle_event}
use room_chat.Server.Clients
use room_chat.Server.Clients.{insert_client}
use room_chat.System.{
  System, idle, reading, closing, handling, set_phase, set_run, after_frame, new_system, read,
  answer, writer_ends, next,
}
use room_chat.Tests.Fixture.{say_go, login_alice}
use room_chat.Tests.Goroutines.{parsed, any, Runs, r2}

-- Nobody is logged in on connection 0, whose writer has ended, and `n` errors are in its queue.
record Filled (n : ℕ) : Type 1 where
  sys : System
  runs : Runs sys
  at_read : sys.phase 0 ≡ reading
  anonymous : (sys.store.client_at 0).authenticated ≡ false
  opened : (sys.store.queue_at 0).closed ≡ false
  count : length (sys.store.queue_at 0).buffer ≡ n
  free : sys.run ≡ idle
  ended : sys.writing 0 ≡ false

empty : Filled 0
unfolding new_system new_server new_client empty_queue handle_event Clients.add_client insert_client
empty = record {
  sys = _;
  runs = next r2 (writer_ends 0 refl);
  at_read = refl;
  anonymous = refl;
  opened = refl;
  count = refl;
  free = refl;
  ended = refl;
}

abbrev refused : Message
refused = error_reply (text "You are not logged in")

-- One more request, one more error.
one_more : (n : ℕ) → n < 256 → Filled n → Filled (suc n)
unfolding read_message
one_more n small f =
    let room : has_room (f.sys.store.queue_at 0) ≡ true = rw f.count (lt→ltb n 256 small) in
    record {
      sys = _;
      runs = next (next f.runs (read 0 say_go [] 0 f.at_read)) (
          answer 0 refused _ (rw f.anonymous refl) (send_open 0 refused f.sys.store f.opened room));
      at_read = refl;
      anonymous = f.anonymous;
      opened = f.opened;
      count = length-append (f.sys.store.queue_at 0).buffer (refused ∷ []) ∙ omega (arith, f.count);
      free = f.free;
      ended = f.ended;
    }

fill : (n : ℕ) → n ≤ 256 → Filled n
fill zero small = empty
fill (suc n) small = one_more n (omega arith) (fill n (omega arith))

full : Filled 256
full = fill 256 (omega arith)

-- Then it asks for a login, which `Run` takes.
abbrev asked : System
asked =
    set_phase 0
      (after_frame (read_message parsed any (full.sys.store.client_at 0) [] 0 login_alice))
      full.sys.store full.sys

abbrev handed : Message
handed = record login_alice {
  user = (full.sys.store.client_at 0).user;
  client_id = (full.sys.store.client_at 0).conn_id;
  id = [];
  created_at = 0;
}

abbrev stopped : System
stopped = set_run (handling 0 handed) (set_phase 0 reading asked.store asked)

-- The client goes, and is not removed.
abbrev left : System
left = set_phase 0 closing stopped.store stopped
