-- ===== src/Tests/Server.antt =====
-- The theorems on the server at the stores of `Runs`.
use room_chat.Prelude.{
  ℕ, zero, suc, List, arith, ◌≡◌, refl, false, text, [], ◌∷◌, inl, inr, text_eq, nat_eq,
}
use room_chat.Prelude.Maps.{lookup}
use room_chat.Protocol.{Message, MessageAction, zero_message}
use room_chat.Store.{Store, done, panicked, waits, free, slice_out_of_range, on_queue}
use room_chat.Server.Replies.{error_message, not_a_member_of_this}
use room_chat.Server.Login.{handle_login}
use room_chat.Server.Membership.{handle_join_channel, handle_leave_channel}
use room_chat.Server.Messages.{handle_send_message}
use room_chat.Server.Clients
use room_chat.Server.Clients.{leave_one}
use room_chat.Server.Invariant.{is_member}
use room_chat.Server.Steps.Valid.{Returns, with_mu, IsValid-IsSound}
use room_chat.Server.Keeps.Joining.{Enters, handle_join_channel-Enters}
use room_chat.Server.Keeps.Leaving.{Exits, handle_leave_channel-Exits}
use room_chat.Server.Keeps.Clients.{Goes, remove_client-Goes}
use room_chat.Server.Admission.{Admits, handle_login-Admits}
use room_chat.Server.Refusals.{
  answered, refusal_type, handle_login-refuses, handle_send_message-refuses,
}
use room_chat.Server.Stalls.{handle_login-panics, handle_send_message-waits}
use room_chat.Tests.Fixture.{
  repository, repository-FindsByName, plain, search, s1, s2, s3, alice, go, room_at, profile_of,
  login_alice, join_go, say_go, leave_go, request_of,
}
use room_chat.Tests.Runs.{
  s1-IsValid, s2-IsValid, s3-IsValid, s1_state, s2_state, s3_state, s1-IsReady,
}

handle_join_channel-Enters_example :
    Returns (handle_join_channel join_go (with_mu free s2)) (Enters go alice (is_member s2))
handle_join_channel-Enters_example =
    handle_join_channel-Enters join_go s2 0 0 (IsValid-IsSound s2-IsValid)
      (room_at s2 (0 ∷ []) 0 s2_state.0 s2_state.1) s2_state.2 s2_state.0

handle_leave_channel-Exits_example :
    Returns (handle_leave_channel leave_go (with_mu free s3)) (Exits go (s3.client_at 0).user s3)
handle_leave_channel-Exits_example =
    handle_leave_channel-Exits leave_go s3 0 (IsValid-IsSound s3-IsValid)
      (room_at s3 (0 ∷ []) 0 s3_state.0 s3_state.2) s3_state.0

remove_client-Goes_example : Returns (Clients.remove_client 0 (with_mu free s3)) (Goes 0 s3)
remove_client-Goes_example = remove_client-Goes 0 s3 (IsValid-IsSound s3-IsValid) s3_state.1

handle_login-Admits_example :
    Returns (handle_login repository plain tt login_alice (with_mu free s1)) (Admits 0 alice s1)
handle_login-Admits_example =
    handle_login-Admits repository plain tt login_alice s1 0 alice (text "pw") (profile_of alice)
      repository-FindsByName (IsValid-IsSound s1-IsValid) s1-IsReady.0 s1_state.0 s1_state.1
      s1_state.3 s1_state.4

handle_login-refuses_example :
    (x : Message) × (x.action ≡ MessageAction.error)
    × (handle_login repository plain tt login_alice (with_mu free s2)
        ≡ done tt (with_mu free (answered 0 x s2)))
handle_login-refuses_example =
    handle_login-refuses repository plain tt login_alice s2 0 (IsValid-IsSound s2-IsValid)
      s2_state.0 s2_state.1 (inr s1_state.5) (inl s2_state.3)

handle_send_message-refuses_example :
    handle_send_message search say_go (with_mu free s2)
    ≡ done tt (
        with_mu free (
          answered 0
            (error_message
              (not_a_member_of_this go)
              say_go.request_id
              (refusal_type (lookup s2.rooms go)))
            s2))
handle_send_message-refuses_example =
    handle_send_message-refuses search say_go s2 0 (IsValid-IsSound s2-IsValid) s2_state.0
      s2_state.1 s2_state.4

-- A login with a token of one byte.
abbrev short_login : Message
short_login = request_of 0 [] MessageAction.login [] (text "x")

handle_login-panics_example :
    handle_login repository plain tt short_login (with_mu free s1) ≡ panicked slice_out_of_range
handle_login-panics_example =
    handle_login-panics repository plain tt short_login s1 0 s1_state.0 (omega arith) (omega arith)

abbrev messages : ℕ → List Message
messages zero = []
messages (suc n) = zero_message ∷ messages n

-- Every queue is full.
abbrev s3_full : Store
s3_full = record s3 { queue_at = λ p. record { buffer = messages 256; closed = false } }

handle_send_message-waits_example :
    handle_send_message search say_go (with_mu free s3_full) ≡ waits (on_queue 0)
handle_send_message-waits_example =
    handle_send_message-waits search say_go s3_full 0 s3_state.0 refl refl
