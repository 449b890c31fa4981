-- ===== src/System/Stuck.antt =====
-- A reader whose writer has ended.
use room_chat.Prelude.{
  ℕ, ◌≡◌, ◌⊎◌, false, Option, Text, nat_eq, text_eq, nat_beq, nat_beq_iff, arith, Bool-cases, inl,
  inr,
}
use room_chat.Protocol.{Message}
use room_chat.Connection.{has_room}
use room_chat.Users.{Repository, Bcrypt}
use room_chat.Elastic.{SearchClient}
use room_chat.Store.{Store, done}
use room_chat.Server.Run.{Event, handle_event}
use room_chat.Server.Effects.{Ends-done, send-Ends}
use room_chat.Server.Effects.Events.{handle_event-Ends}
use room_chat.Server.Stalls.Never.{
  StaysFull, StaysFull-Allows, users-Stay, channels-Stay, send-Never,
}
use room_chat.System.{
  System, replying, Step, serve_ws, run_register, read, answer, run_dispatch, run_handle, stop,
  run_unregister, write, writer_ends, Reach, here, next,
}

-- The reader is at `c.send <- errorMsg`, its queue is full, and nobody takes from it.
pub record IsStuck (p : ℕ) (m : Message) (x : System) : Type 0 where
  pub at_it : x.phase p ≡ replying m
  pub full : has_room (x.store.queue_at p) ≡ false
  pub ended : x.writing p ≡ false

module _ (repo : Repository) (bcrypt : Bcrypt) (search : SearchClient) {Frame : Type 0}
    (unmarshal : Frame → Text ⊎ Message) (validate : Message → Option Text) (p : ℕ)
    (m : Message) where
  event-StaysFull :
      (db : repo.Db) (e : Event) (s t : Store)
      → handle_event repo bcrypt search db e s ≡ done tt t
      → has_room (s.queue_at p) ≡ false
      → has_room (t.queue_at p) ≡ false
  event-StaysFull db e s t run =
      (Ends-done {P = StaysFull p s} tt t
        (handle_event-Ends (StaysFull-Allows p) (users-Stay p) (channels-Stay p)
          (λ f u. record { full = λ h. h }) (λ cs u. record { full = λ h. h })
          (λ q u. record { full = λ h. ground (arith, nat_beq_iff q p) }) repo bcrypt search db e s)
        run).full

  Step-IsStuck :
      {x y : System}
      → Step repo bcrypt search unmarshal validate x y
      → IsStuck p m x
      → IsStuck p m y
  Step-IsStuck (serve_ws q uuid nobody unique) k = record {
    at_it = ground (arith, nat_beq_iff q p, k.at_it);
    full = ground (arith, nat_beq_iff q p, k.at_it, k.full);
    ended = k.ended;
  }
  Step-IsStuck {x} (run_register db q t free at_q run) k = record {
    at_it = ground (arith, nat_beq_iff q p, k.at_it);
    full = event-StaysFull db _ x.store t run k.full;
    ended = ground (arith, nat_beq_iff q p, k.at_it, k.ended);
  }
  Step-IsStuck (read q frame uuid now at_q) k = record {
    at_it = ground (arith, nat_beq_iff q p, k.at_it);
    full = k.full;
    ended = k.ended;
  }
  Step-IsStuck {x} (answer q n t at_q run) k = record {
    at_it = elim (Bool-cases (nat_beq q p)) [
      | inr other ↦ rw other k.at_it
      | inl same ↦
          absurd
            (Ends-done tt t (send-Never q n x.store (rw ((nat_beq_iff q p).0 same) k.full)) run)
    ];
    full =
        (Ends-done {P = StaysFull p x.store} tt t (send-Ends (StaysFull-Allows p) q n x.store)
            run).full
          k.full;
    ended = k.ended;
  }
  Step-IsStuck (run_dispatch q n free at_q) k = record {
    at_it = ground (arith, nat_beq_iff q p, k.at_it);
    full = k.full;
    ended = k.ended;
  }
  Step-IsStuck {x} (run_handle db q n t at_q run) k = record {
    at_it = k.at_it;
    full = event-StaysFull db _ x.store t run k.full;
    ended = k.ended;
  }
  Step-IsStuck (stop q at_q) k = record {
    at_it = ground (arith, nat_beq_iff q p, k.at_it);
    full = k.full;
    ended = k.ended;
  }
  Step-IsStuck {x} (run_unregister db q t free at_q run) k = record {
    at_it = ground (arith, nat_beq_iff q p, k.at_it);
    full = event-StaysFull db _ x.store t run k.full;
    ended = k.ended;
  }
  Step-IsStuck (write q n rest running waits) k = record {
    at_it = k.at_it;
    full = ground (arith, nat_beq_iff q p, k.full, k.ended);
    ended = k.ended;
  }
  Step-IsStuck (writer_ends q running) k = record {
    at_it = k.at_it;
    full = k.full;
    ended = ground (arith, nat_beq_iff q p, k.ended);
  }

  -- A reader that waits to put an error into a full queue, whose writer has ended, waits for ever:
  -- whatever the goroutines do from then on, it is at that statement, and so its connection is
  -- never handed to `Run` to be removed.
  pub Reach-IsStuck :
      {x y : System}
      → IsStuck p m x
      → Reach repo bcrypt search unmarshal validate x y
      → IsStuck p m y
  Reach-IsStuck k here = k
  Reach-IsStuck k (next r st) = Step-IsStuck st (Reach-IsStuck k r)
