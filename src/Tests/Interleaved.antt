-- ===== src/Tests/Interleaved.antt =====
-- The theorems on the goroutines, at the runs of `Goroutines`.
use room_chat.Prelude.{
  ◌+◌, if◌then◌else◌, ℕ, zero, suc, List, ◌≡◌, refl, some, true, false, text, [], ◌∷◌, inl, text_eq,
  nat_eq, arith,
}
use room_chat.Prelude.Maps.{update}
use room_chat.Protocol.{Message}
use room_chat.Connection.{new_client, error_reply}
use room_chat.Store.{Store, done, offer}
use room_chat.Channel.{push_message}
use room_chat.Server.Clients
use room_chat.Server.Clients.{insert_client}
use room_chat.Server.Run.{dispatched, handle_event}
use room_chat.Server.Reachable.{new_server}
use room_chat.System.{
  System, idle, waiting, closing, gone, stop, replying, set_phase, connect, new_system, is_live,
  serve_ws, Reach, here, next,
}
use room_chat.System.Invariant.{Inv}
use room_chat.System.Delivery.{hears, answered, Reach-delivers}
use room_chat.System.Answers.{Reach-answers}
use room_chat.Server.Answers.{answers}
use room_chat.System.Stuck.{IsStuck, Reach-IsStuck}
use room_chat.System.Reached.{Reach-Inv}
use room_chat.System.Members.{Reach-member}
use room_chat.System.Chat.{nobody, Talks}
use room_chat.System.Moves.{chat_of}
use room_chat.System.Simulation.{Reach-simulates}
use room_chat.System.Progress.{Reach-GoesOn}
use room_chat.Server.Chat.{who}
use room_chat.Tests.Fixture.{
  repository, repository-FindsByName, plain, search, alice, go, say_go, join_go, after, run-after,
}
use room_chat.Tests.Goroutines.{
  parsed, any, x0, x2, x5, x5_taken, x6, x7, r5, r5_taken, r6, r7, x5-IsReady, x5_state, x7_state,
  alice_joined,
}

Reach-Inv_example : Inv x6
Reach-Inv_example = Reach-Inv repository plain search parsed any repository-FindsByName _ _ _ _ r6

Reach-member_example :
    (q : ℕ) × (who x6.store q ≡ some alice)
    × (is_live (x6.phase q) ≡ true)
    × ((x6.store.queue_at q).closed ≡ false)
Reach-member_example =
    Reach-member repository plain search parsed any repository-FindsByName _ _ _ _ r6 go alice
      alice_joined

Reach-simulates_example : Talks nobody (chat_of x6.store)
Reach-simulates_example =
    Reach-simulates repository plain search parsed any repository-FindsByName _ _ _ _ r6

-- While `Run` handles the join, its sender closes the connection.
abbrev left : System
left = set_phase 0 closing x5_taken.store x5_taken

left_reached : Reach repository plain search parsed any x0 left
left_reached = next r5_taken (stop 0 refl)

Reach-GoesOn_example :
    (y : System) × Reach repository plain search parsed any left y × (y.phase 0 ≡ gone)
Reach-GoesOn_example =
    Reach-GoesOn repository plain search parsed any repository-FindsByName tt _ _ _ _ left_reached 0
      refl (inl x5_state.2, tt)

Reach-delivers_example :
    (who x7.store 0 ≡ some alice)
    × ((t : Store) × (handle_event repository plain search tt (dispatched say_go) x7.store
          ≡ done tt t)
        × (t.queue_at 0 ≡ (
            if hears x7.store go (who x7.store 0)
            then offer (push_message go say_go) (answered x7.store 0 say_go 0)
            else answered x7.store 0 say_go 0)))
Reach-delivers_example =
    Reach-delivers repository plain search parsed any repository-FindsByName tt _ _ _ _ r7 0 say_go
      (inl x7_state.0) refl x7_state.1 alice_joined x7_state.3 0 x7_state.2

Reach-answers_example :
    answers join_go.request_id (x6.store.queue_at 0).buffer
    ≡ answers join_go.request_id (x5.store.queue_at 0).buffer + 1
Reach-answers_example =
    Reach-answers repository plain search parsed any repository-FindsByName tt _ _ _ _ r5 0 join_go
      (after (dispatched join_go) x5.store) (inl x5_state.0)
      (run-after (dispatched join_go) x5.store
        (Reach-Inv repository plain search parsed any repository-FindsByName _ _ _ _ r5).valid
        x5-IsReady)
      0 join_go.request_id

-- The reader of connection 0 has answered with an error, and nobody takes from its full queue;
-- connection 1 comes.
abbrev error_of : Message
error_of = error_reply (text "You are not logged in")

abbrev many : ℕ → List Message
many zero = []
many (suc n) = error_of ∷ many n

abbrev y0 : System
y0 = record {
  store = record x2.store { queue_at = λ p. record { buffer = many 256; closed = false } };
  phase = update x2.phase 0 (replying error_of);
  writing = λ p. false;
  run = idle;
}

abbrev y1 : System
y1 = set_phase 1 waiting (connect 1 (1 ∷ []) y0.store) y0

y1_reached : Reach repository plain search parsed any y0 y1
unfolding new_system new_server new_client handle_event Clients.add_client insert_client
y1_reached = next here (serve_ws 1 (1 ∷ []) refl (λ q e other. ground (arith, other)))

Reach-IsStuck_example : IsStuck 0 error_of y1
Reach-IsStuck_example =
    Reach-IsStuck repository plain search parsed any 0 error_of
      (record { at_it = refl; full = refl; ended = refl }) y1_reached
