-- ===== src/Tests/Runs.antt =====
-- Stores that the server of the fixture reaches: a connection is registered, logs in as alice, and
-- joins a channel.
use room_chat.Prelude.{
  ℕ, ◌≤◌, ◌≡◌, refl, some, true, false, text, [], ◌∷◌, inr, length, text_eq, nat_eq, arith,
}
use room_chat.Prelude.Maps.{lookup, insert}
use room_chat.Prelude.Sets
use room_chat.Prelude.Sets.{contains}
use room_chat.Auth.{parse_basic_auth, get_encoded_base64_token, cut_colon, credentials}
use room_chat.Auth.Base64.{encode_to_string, decode_string, symbol, sextet}
use room_chat.Connection.{new_client, empty_queue, authenticate, has_room}
use room_chat.User
use room_chat.User.{new_user, add_channel}
use room_chat.Users.{login, ok}
use room_chat.Channel.{new_channel, add_user}
use room_chat.Store.{send, try_send}
use room_chat.Sessions.{
  add_client_to_user, allocate_user, send_message_to, send_event, send_to_each,
}
use room_chat.Rooms.{
  get_or_create, allocate_channel, registry_add_user, channel_add_user, send_welcome_message,
  channel_send, send_to_members,
}
use room_chat.Server.Replies.{send_response, response_message}
use room_chat.Server.Login.{handle_login, login_client, login_parsed, login_result, accept_login}
use room_chat.Server.Membership.{handle_join_channel, join_as, join_into}
use room_chat.Server.Clients
use room_chat.Server.Clients.{insert_client}
use room_chat.Server.Run.{registered, dispatched, handle_event, handle_message, dispatch_action}
use room_chat.Server.Invariant.{IsValid, is_member}
use room_chat.Server.Steps.Detach.{IsNew}
use room_chat.Server.Events.{IsReady}
use room_chat.Server.Reachable.{new_server, new_server-IsValid, Reach, here, next, handled}
use room_chat.Tests.Fixture.{
  repository, plain, search, started, s1, s2, s3, alice, go, after-IsValid, run-after, room_at,
  profile_of, login_alice, join_go,
}

pub started-IsValid : IsValid started
started-IsValid = new_server-IsValid _ _ _ _

pub fresh_client : (p : ℕ) → IsNew started p
unfolding new_server new_client empty_queue lookup
fresh_client p = record { unknown = refl; unused = refl; anonymous = refl }

pub s1-IsValid : IsValid s1
s1-IsValid = after-IsValid (registered 0) started started-IsValid (fresh_client 0)

pub s1_state :
    (lookup s1.clients (0 ∷ []) ≡ some 0)
    × ((s1.client_at 0).authenticated ≡ false)
    × (has_room (s1.queue_at 0) ≡ true)
    × (parse_basic_auth login_alice.request.token ≡ credentials alice (text "pw"))
    × (login repository plain alice (text "pw") tt ≡ ok (profile_of alice))
    × (6 ≤ length login_alice.request.token)
unfolding new_server new_client empty_queue lookup handle_event handle_message dispatch_action
    Clients.add_client insert_client insert handle_login login_client login_parsed login_result
    accept_login authenticate add_client_to_user allocate_user new_user User.add_client
    parse_basic_auth get_encoded_base64_token encode_to_string decode_string symbol sextet cut_colon
    login send_response send response_message
s1_state = (refl, refl, refl, refl, refl, omega arith)

pub s1-IsReady : IsReady s1 (dispatched login_alice)
s1-IsReady = (room_at s1 (0 ∷ []) 0 s1_state.0 s1_state.2, inr s1_state.5)

pub s2-IsValid : IsValid s2
s2-IsValid = after-IsValid (dispatched login_alice) s1 s1-IsValid s1-IsReady

pub s2_state :
    (lookup s2.clients (0 ∷ []) ≡ some 0)
    × (has_room (s2.queue_at 0) ≡ true)
    × (lookup s2.sessions alice ≡ some 0)
    × ((s2.client_at 0).authenticated ≡ true)
    × (is_member s2 go (s2.client_at 0).user ≡ false)
    × (is_member s2 go alice ≡ false)
unfolding new_server new_client empty_queue lookup handle_event handle_message dispatch_action
    Clients.add_client insert_client insert handle_login login_client login_parsed login_result
    accept_login authenticate add_client_to_user allocate_user new_user User.add_client
    parse_basic_auth get_encoded_base64_token encode_to_string decode_string symbol sextet cut_colon
    login send_response send response_message handle_join_channel join_as join_into get_or_create
    allocate_channel registry_add_user channel_add_user add_user contains Sets.insert add_channel
    send_welcome_message channel_send send_to_members send_message_to send_event send_to_each
    try_send new_channel
s2_state = (refl, refl, refl, refl, refl, refl)

pub s2-IsReady : IsReady s2 (dispatched join_go)
s2-IsReady = (room_at s2 (0 ∷ []) 0 s2_state.0 s2_state.1, tt)

pub s3-IsValid : IsValid s3
s3-IsValid = after-IsValid (dispatched join_go) s2 s2-IsValid s2-IsReady

pub s3_state :
    (lookup s3.clients (0 ∷ []) ≡ some 0)
    × (lookup s3.clients (s3.client_at 0).conn_id ≡ some 0)
    × (has_room (s3.queue_at 0) ≡ true)
    × (lookup s3.rooms go ≡ some 0)
    × (contains (s3.channel_at 0).users (s3.client_at 0).user ≡ true)
    × (is_member s3 go alice ≡ true)
unfolding new_server new_client empty_queue lookup handle_event handle_message dispatch_action
    Clients.add_client insert_client insert handle_login login_client login_parsed login_result
    accept_login authenticate add_client_to_user allocate_user new_user User.add_client
    parse_basic_auth get_encoded_base64_token encode_to_string decode_string symbol sextet cut_colon
    login send_response send response_message handle_join_channel join_as join_into get_or_create
    allocate_channel registry_add_user channel_add_user add_user contains Sets.insert add_channel
    send_welcome_message channel_send send_to_members send_message_to send_event send_to_each
    try_send new_channel
s3_state = (refl, refl, refl, refl, refl, refl)

pub s3_reached : Reach repository plain search started s3
s3_reached =
    next
      (next
        (next here (
          handled tt (registered 0) (fresh_client 0)
            (run-after (registered 0) started started-IsValid (fresh_client 0))))
        (handled tt (dispatched login_alice) s1-IsReady
          (run-after (dispatched login_alice) s1 s1-IsValid s1-IsReady)))
      (handled tt (dispatched join_go) s2-IsReady
        (run-after (dispatched join_go) s2 s2-IsValid s2-IsReady))
