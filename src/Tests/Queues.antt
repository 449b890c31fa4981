-- ===== src/Tests/Queues.antt =====
-- The theorems on the event loop and the queues at the stores of `Runs`.
use room_chat.Prelude.{ℕ, ◌≡◌, refl}
use room_chat.Connection.{Queue}
use room_chat.Store.{done}
use room_chat.Rooms.{channel_send}
use room_chat.Server.Run.{dispatched, handle_event}
use room_chat.Server.Chat.{Follows}
use room_chat.Server.Refinement.{handle_event-Follows}
use room_chat.Server.Steps.Valid.{Returns, IsValid-IsSound}
use room_chat.Server.Order.{Reorders-IsSound, SameUpToOrder, channel_send-order}
use room_chat.Tests.Fixture.{
  repository-FindsByName, repository, plain, search, s2, go, say_go, join_go,
}
use room_chat.Tests.Runs.{s2-IsValid, s2-IsReady}
use room_chat.Tests.Pair.{s6, s6_swapped, s6_state, s6-IsValid, s6-Reorders}

s6_same : SameUpToOrder 0 s6 s6_swapped
s6_same = record {
  clients = refl;
  queues = refl;
  attached = λ w p. refl;
  members = λ w. (s6-Reorders 0).members w;
}

-- Two members, in both orders.
channel_send-order_example :
    (q : ℕ → Queue) × (channel_send 0 say_go s6 ≡ done tt (record s6 { queue_at = q }))
    × (channel_send 0 say_go s6_swapped ≡ done tt (record s6_swapped { queue_at = q }))
channel_send-order_example =
    channel_send-order go 0 say_go s6 s6_swapped (IsValid-IsSound s6-IsValid)
      (Reorders-IsSound s6 s6_swapped.channel_at s6-Reorders (IsValid-IsSound s6-IsValid))
      s6_state.0 s6_state.0 s6_same

handle_event-Follows_example :
    Returns
      (handle_event repository plain search tt (dispatched join_go) s2)
      (Follows repository plain tt s2 (dispatched join_go))
handle_event-Follows_example =
    handle_event-Follows repository plain search repository-FindsByName tt (dispatched join_go) s2
      s2-IsValid s2-IsReady
