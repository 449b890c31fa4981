-- ===== src/Tests/Goroutines.antt =====
-- A run of the goroutines of one connection: it is registered, logs in as alice, and joins a
-- channel.
use room_chat.Prelude.{
  ◌≤◌, ◌≡◌, ◌⊎◌, refl, Option, none, some, true, Text, [], ◌∷◌, inr, length, text_eq, nat_eq, arith,
}
use room_chat.Prelude.Maps.{lookup, insert}
use room_chat.Prelude.Sets
use room_chat.Prelude.Sets.{contains}
use room_chat.Protocol.{Message}
use room_chat.Auth.{parse_basic_auth, get_encoded_base64_token, cut_colon}
use room_chat.Auth.Base64.{encode_to_string, decode_string, symbol, sextet}
use room_chat.Connection.{new_client, empty_queue, authenticate, has_room, read_message}
use room_chat.User
use room_chat.User.{new_user, add_channel}
use room_chat.Users.{login}
use room_chat.Channel.{new_channel, add_user}
use room_chat.Store.{send, try_send}
use room_chat.Sessions.{
  add_client_to_user, allocate_user, send_message_to, send_event, send_to_each,
}
use room_chat.Rooms.{
  get_or_create, allocate_channel, registry_add_user, channel_add_user, send_welcome_message,
  channel_send, send_to_members,
}
use room_chat.Server.Replies.{send_response, response_message}
use room_chat.Server.Login.{handle_login, login_client, login_parsed, login_result, accept_login}
use room_chat.Server.Membership.{handle_join_channel, join_as, join_into}
use room_chat.Server.Clients
use room_chat.Server.Clients.{insert_client}
use room_chat.Server.Run.{registered, dispatched, handle_event, handle_message, dispatch_action}
use room_chat.Server.Invariant.{IsValid, is_member}
use room_chat.Server.Steps.Detach.{IsNew}
use room_chat.Server.Reachable.{new_server}
use room_chat.System.{
  System, waiting, reading, sending, set_phase, set_writing, connect, after_frame, new_system,
  is_live, serve_ws, run_register, read, run_dispatch, run_handle, idle, handling, set_run, Reach,
  here, next,
}
use room_chat.Elastic.{index_message}
use room_chat.System.Reached.{Reach-Inv}
use room_chat.Server.Events.{IsReady}
use room_chat.Tests.Fixture.{
  repository, repository-FindsByName, plain, search, alice, go, after, run-after, room_at,
  profile_of, login_alice, join_go, say_go,
}

-- A frame is its message, and every message is fine.
abbrev pub parsed : Message → Text ⊎ Message
parsed m = inr m

abbrev pub any : Message → Option Text
any m = none

abbrev pub x0 : System
x0 =
    new_system (λ p. new_client []) (λ p. empty_queue) (λ p. new_user (profile_of []))
      (λ p. new_channel [])

abbrev pub Runs : System → Type 0
Runs x = Reach repository plain search parsed any x0 x

abbrev pub x1 : System
x1 = set_phase 0 waiting (connect 0 (0 ∷ []) x0.store) x0

abbrev pub x2 : System
x2 = set_writing 0 true (set_phase 0 reading (after (registered 0) x1.store) x1)

abbrev pub after_read : Message → System → System
after_read m x =
    set_phase 0 (after_frame (read_message parsed any (x.store.client_at 0) [] 0 m)) x.store x

abbrev pub x3 : System
x3 = after_read login_alice x2

-- What `Run` has received.
abbrev pub take : Message → System → System
take m x = set_run (handling 0 m) (set_phase 0 reading x.store x)

abbrev pub x3_taken : System
x3_taken = take login_alice x3

abbrev pub x4 : System
x4 = record x3_taken { store = after (dispatched login_alice) x3.store; run = idle }

abbrev pub x5 : System
x5 = after_read join_go x4

abbrev pub x5_taken : System
x5_taken = take join_go x5

abbrev pub x6 : System
x6 = record x5_taken { store = after (dispatched join_go) x5.store; run = idle }

IsValid-at : {x : System} → Runs x → IsValid x.store
IsValid-at r = (Reach-Inv repository plain search parsed any repository-FindsByName _ _ _ _ r).valid

x1-IsNew : IsNew x1.store 0
unfolding new_system new_server new_client empty_queue lookup
x1-IsNew = record { unknown = refl; unused = refl; anonymous = refl }

pub r1 : Runs x1
unfolding new_system
r1 = next here (serve_ws 0 (0 ∷ []) refl (λ q e. absurd (cc)))

pub r2 : Runs x2
unfolding new_system
r2 =
    next r1
      (run_register tt 0 _ refl refl (run-after (registered 0) x1.store (IsValid-at r1) x1-IsNew))

x3_state :
    (x3.phase 0 ≡ sending login_alice)
    × (lookup x3.store.clients (0 ∷ []) ≡ some 0)
    × (has_room (x3.store.queue_at 0) ≡ true)
    × (6 ≤ length login_alice.request.token)
unfolding new_system new_server new_client empty_queue lookup handle_event handle_message
    dispatch_action Clients.add_client insert_client insert handle_login login_client login_parsed
    login_result accept_login authenticate add_client_to_user allocate_user new_user User.add_client
    parse_basic_auth get_encoded_base64_token encode_to_string decode_string symbol sextet cut_colon
    login send_response send response_message handle_join_channel join_as join_into get_or_create
    allocate_channel registry_add_user channel_add_user add_user contains Sets.insert add_channel
    send_welcome_message channel_send send_to_members send_message_to send_event send_to_each
    try_send new_channel read_message
x3_state = (refl, refl, refl, omega arith)

x3-IsReady : IsReady x3.store (dispatched login_alice)
x3-IsReady = (room_at x3.store (0 ∷ []) 0 x3_state.1 x3_state.2, inr x3_state.3)

pub r3 : Runs x3
r3 = next r2 (read 0 login_alice [] 0 refl)

r3_taken : Runs x3_taken
unfolding new_system
r3_taken = next r3 (run_dispatch 0 login_alice refl x3_state.0)

pub r4 : Runs x4
r4 = next r3_taken (
    run_handle tt 0 login_alice _ refl
      (run-after (dispatched login_alice) x3.store (IsValid-at r3) x3-IsReady))

pub r5 : Runs x5
r5 = next r4 (read 0 join_go [] 0 refl)

pub x5_state :
    (x5.phase 0 ≡ sending join_go)
    × (lookup x5.store.clients (0 ∷ []) ≡ some 0)
    × (has_room (x5.store.queue_at 0) ≡ true)
    × (x5.writing 0 ≡ true)
unfolding new_system new_server new_client empty_queue lookup handle_event handle_message
    dispatch_action Clients.add_client insert_client insert handle_login login_client login_parsed
    login_result accept_login authenticate add_client_to_user allocate_user new_user User.add_client
    parse_basic_auth get_encoded_base64_token encode_to_string decode_string symbol sextet cut_colon
    login send_response send response_message handle_join_channel join_as join_into get_or_create
    allocate_channel registry_add_user channel_add_user add_user contains Sets.insert add_channel
    send_welcome_message channel_send send_to_members send_message_to send_event send_to_each
    try_send new_channel read_message
x5_state = (refl, refl, refl, refl)

pub x5-IsReady : IsReady x5.store (dispatched join_go)
x5-IsReady = (room_at x5.store (0 ∷ []) 0 x5_state.1 x5_state.2, tt)

pub r5_taken : Runs x5_taken
r5_taken = next r5 (run_dispatch 0 join_go refl x5_state.0)

pub r6 : Runs x6
r6 = next r5_taken (
    run_handle tt 0 join_go _ refl
      (run-after (dispatched join_go) x5.store (IsValid-at r5) x5-IsReady))

pub alice_joined : is_member x6.store go alice ≡ true
unfolding new_system new_server new_client empty_queue lookup handle_event handle_message
    dispatch_action Clients.add_client insert_client insert handle_login login_client login_parsed
    login_result accept_login authenticate add_client_to_user allocate_user new_user User.add_client
    parse_basic_auth get_encoded_base64_token encode_to_string decode_string symbol sextet cut_colon
    login send_response send response_message handle_join_channel join_as join_into get_or_create
    allocate_channel registry_add_user channel_add_user add_user contains Sets.insert add_channel
    send_welcome_message channel_send send_to_members send_message_to send_event send_to_each
    try_send new_channel read_message
alice_joined = refl

abbrev pub x7 : System
x7 = after_read say_go x6

pub r7 : Runs x7
r7 = next r6 (read 0 say_go [] 0 refl)

pub x7_state :
    (x7.phase 0 ≡ sending say_go)
    × (has_room (x7.store.queue_at 0) ≡ true)
    × (is_live (x7.phase 0) ≡ true)
    × (index_message search say_go ≡ none)
unfolding new_system new_server new_client empty_queue lookup handle_event handle_message
    dispatch_action Clients.add_client insert_client insert handle_login login_client login_parsed
    login_result accept_login authenticate add_client_to_user allocate_user new_user User.add_client
    parse_basic_auth get_encoded_base64_token encode_to_string decode_string symbol sextet cut_colon
    login send_response send response_message handle_join_channel join_as join_into get_or_create
    allocate_channel registry_add_user channel_add_user add_user contains Sets.insert add_channel
    send_welcome_message channel_send send_to_members send_message_to send_event send_to_each
    try_send new_channel read_message index_message
x7_state = (refl, refl, refl, refl)
