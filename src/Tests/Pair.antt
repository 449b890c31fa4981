-- ===== src/Tests/Pair.antt =====
-- The server of `Runs`, after a second user has logged in and joined the channel.
use room_chat.Prelude.{
  Bool-cases, inl, nat_beq, nat_beq_iff, subst, sym, List, ℕ, ◌≤◌, ◌≡◌, refl, some, true, text,
  Text, [], ◌∷◌, inr, length, text_eq, nat_eq, arith,
}
use room_chat.Prelude.Maps.{lookup, insert, update}
use room_chat.Prelude.Sets
use room_chat.Prelude.Sets.{contains, Distinct}
use room_chat.Protocol
use room_chat.Protocol.{Message, join}
use room_chat.Auth.{parse_basic_auth, get_encoded_base64_token, cut_colon}
use room_chat.Auth.Base64.{encode_to_string, decode_string, symbol, sextet}
use room_chat.Connection.{new_client, empty_queue, authenticate, has_room}
use room_chat.User
use room_chat.User.{new_user, add_channel}
use room_chat.Users
use room_chat.Channel.{Channel, new_channel, add_user}
use room_chat.Store.{Store, send, try_send}
use room_chat.Sessions.{
  add_client_to_user, allocate_user, send_message_to, send_event, send_to_each,
}
use room_chat.Rooms.{
  get_or_create, allocate_channel, registry_add_user, channel_add_user, send_welcome_message,
  channel_send, send_to_members,
}
use room_chat.Server.Replies.{send_response, response_message}
use room_chat.Server.Login.{handle_login, login_client, login_parsed, login_result, accept_login}
use room_chat.Server.Membership.{handle_join_channel, join_as, join_into}
use room_chat.Server.Clients
use room_chat.Server.Clients.{insert_client}
use room_chat.Server.Run.{registered, dispatched, handle_event, handle_message, dispatch_action}
use room_chat.Server.Invariant.{IsValid}
use room_chat.Server.Steps.Detach.{IsNew}
use room_chat.Server.Events.{IsReady}
use room_chat.Server.Reachable.{new_server}
use room_chat.Server.Order.{Reorders}
use room_chat.Tests.Fixture.{alice, s3, go, after, after-IsValid, room_at, request_of}
use room_chat.Tests.Runs.{s3-IsValid}

abbrev bob : Text
bob = text "bob"

abbrev login_bob : Message
login_bob = request_of 1 [] Protocol.login [] (get_encoded_base64_token bob (text "pw"))

abbrev join_bob : Message
join_bob = request_of 1 bob join go []

abbrev s4 : Store
s4 = after (registered 1) s3

abbrev s5 : Store
s5 = after (dispatched login_bob) s4

abbrev pub s6 : Store
s6 = after (dispatched join_bob) s5

s3_fresh : IsNew s3 1
unfolding new_server new_client empty_queue lookup handle_event handle_message dispatch_action
    Clients.add_client insert_client insert handle_login login_client login_parsed login_result
    accept_login authenticate add_client_to_user allocate_user new_user User.add_client
    parse_basic_auth get_encoded_base64_token encode_to_string decode_string symbol sextet cut_colon
    Users.login send_response send response_message handle_join_channel join_as join_into
    get_or_create allocate_channel registry_add_user channel_add_user add_user contains Sets.insert
    add_channel send_welcome_message channel_send send_to_members send_message_to send_event
    send_to_each try_send new_channel
s3_fresh = record { unknown = refl; unused = refl; anonymous = refl }

s4-IsValid : IsValid s4
s4-IsValid = after-IsValid (registered 1) s3 s3-IsValid s3_fresh

s4_state :
    (lookup s4.clients (1 ∷ []) ≡ some 1)
    × (has_room (s4.queue_at 1) ≡ true)
    × (6 ≤ length login_bob.request.token)
unfolding new_server new_client empty_queue lookup handle_event handle_message dispatch_action
    Clients.add_client insert_client insert handle_login login_client login_parsed login_result
    accept_login authenticate add_client_to_user allocate_user new_user User.add_client
    parse_basic_auth get_encoded_base64_token encode_to_string decode_string symbol sextet cut_colon
    Users.login send_response send response_message handle_join_channel join_as join_into
    get_or_create allocate_channel registry_add_user channel_add_user add_user contains Sets.insert
    add_channel send_welcome_message channel_send send_to_members send_message_to send_event
    send_to_each try_send new_channel
s4_state = (refl, refl, omega arith)

s4-IsReady : IsReady s4 (dispatched login_bob)
s4-IsReady = (room_at s4 (1 ∷ []) 1 s4_state.0 s4_state.1, inr s4_state.2)

s5-IsValid : IsValid s5
s5-IsValid = after-IsValid (dispatched login_bob) s4 s4-IsValid s4-IsReady

s5_state : (lookup s5.clients (1 ∷ []) ≡ some 1) × (has_room (s5.queue_at 1) ≡ true)
unfolding new_server new_client empty_queue lookup handle_event handle_message dispatch_action
    Clients.add_client insert_client insert handle_login login_client login_parsed login_result
    accept_login authenticate add_client_to_user allocate_user new_user User.add_client
    parse_basic_auth get_encoded_base64_token encode_to_string decode_string symbol sextet cut_colon
    Users.login send_response send response_message handle_join_channel join_as join_into
    get_or_create allocate_channel registry_add_user channel_add_user add_user contains Sets.insert
    add_channel send_welcome_message channel_send send_to_members send_message_to send_event
    send_to_each try_send new_channel
s5_state = (refl, refl)

pub s6-IsValid : IsValid s6
s6-IsValid =
    after-IsValid (dispatched join_bob) s5 s5-IsValid
      (room_at s5 (1 ∷ []) 1 s5_state.0 s5_state.1, tt)

pub s6_state :
    (lookup s6.rooms go ≡ some 0)
    × ((s6.channel_at 0).name ≡ go)
    × ((s6.channel_at 0).users ≡ alice ∷ bob ∷ [])
unfolding new_server new_client empty_queue lookup handle_event handle_message dispatch_action
    Clients.add_client insert_client insert handle_login login_client login_parsed login_result
    accept_login authenticate add_client_to_user allocate_user new_user User.add_client
    parse_basic_auth get_encoded_base64_token encode_to_string decode_string symbol sextet cut_colon
    Users.login send_response send response_message handle_join_channel join_as join_into
    get_or_create allocate_channel registry_add_user channel_add_user add_user contains Sets.insert
    add_channel send_welcome_message channel_send send_to_members send_message_to send_event
    send_to_each try_send new_channel
s6_state = (refl, refl, refl)

-- The channel with its members in the other order.
abbrev swapped : Channel
swapped = record { name = go; users = bob ∷ alice ∷ [] }

abbrev pub s6_swapped : Store
s6_swapped = record s6 { channel_at = update s6.channel_at 0 swapped }

swap_contains :
    (us : List Text)
    → us ≡ alice ∷ bob ∷ []
    → (w : Text) → contains (bob ∷ alice ∷ []) w ≡ contains us w
unfolding contains
swap_contains us e w = rw e (ground arith)

swapped-Distinct : Distinct (bob ∷ alice ∷ [])
unfolding contains
swapped-Distinct = (refl, (refl, tt))

pub s6-Reorders : (c : ℕ) → Reorders s6.channel_at (update s6.channel_at 0 swapped) c
s6-Reorders c = elim (Bool-cases (nat_beq 0 c)) [
  | inl e ↦
      subst (Reorders s6.channel_at (update s6.channel_at 0 swapped)) ((nat_beq_iff 0 c).0 e)
        (record {
          name = sym s6_state.1;
          members = swap_contains (s6.channel_at 0).users s6_state.2;
          distinct = λ d. swapped-Distinct;
          count = rw s6_state.2 refl;
        })
  | inr e ↦ record {
    name = rw e refl;
    members = λ w. rw e refl;
    distinct = λ d. rw e d;
    count = rw e refl;
  }
]
