-- ===== src/Server/Stalls.antt =====
-- Where a client brings the goroutine of `Run` to a stop: a token shorter than the prefix, and a
-- full queue.
pub mod Never
pub mod Full
use room_chat.Prelude.{
  ℕ, ◌<◌, ◌≡◌, ◌∙◌, refl, false, some, Text, text_beq, [], ◌∷◌, length, text_eq, nat_eq, arith, inl,
  inr, Bool-cases, Option-cases,
}
use room_chat.Prelude.Maps.{lookup}
use room_chat.Protocol.{Message}
use room_chat.Connection.{has_room}
use room_chat.Elastic.{SearchClient, index_message}
use room_chat.Auth.RoundTrip.{parse_panics_iff}
use room_chat.Users.{Repository, Bcrypt}
use room_chat.Store.{
  Store, ◌>>◌, panicked, waits, slice_out_of_range, on_queue, on_lock, done, free, reading, send,
}
use room_chat.Server.Replies.{send_error, send_response}
use room_chat.Server.Messages.{send_in_channel, handle_send_message}
use room_chat.Server.Login.{login_parsed, login_client, handle_login}
use room_chat.Server.Clients
use room_chat.Server.Clients.{leave_one}
use room_chat.Server.Steps.Valid.{with_mu}
use room_chat.Server.Refusals.{members-is_member}
use room_chat.Server.Invariant.{is_member}
use room_chat.Prelude.Sets.{contains}
use room_chat.Rooms.{channel_remove_user, not_a_member}
use room_chat.Channel.{remove_user}

nonempty : (t : Text) → 0 < length t → text_beq t [] ≡ false
nonempty [] h = absurd (omega (arith, h))
nonempty (c ∷ t) h = refl

-- A login of any registered connection, whose token has between one and five bytes, ends the
-- process, whatever the state of the server, the users and their passwords.
pub handle_login-panics :
    (repo : Repository) (bcrypt : Bcrypt) (db : repo.Db) (m : Message) (s : Store) (p : ℕ)
    → lookup s.clients m.client_id ≡ some p
    → 0 < length m.request.token
    → length m.request.token < 6
    → handle_login repo bcrypt db m (with_mu free s) ≡ panicked slice_out_of_range
unfolding handle_login login_client login_parsed
handle_login-panics repo bcrypt db m s p registered some_token short =
    rw (registered, nonempty m.request.token some_token, (parse_panics_iff m.request.token).1 short)

send-waits :
    (p : ℕ) (x : Message) (s : Store)
    → (s.queue_at p).closed ≡ false
    → has_room (s.queue_at p) ≡ false
    → send p x s ≡ waits (on_queue p)
unfolding send
send-waits p x s opened full = rw (opened, full)

module _ (client : SearchClient) (m : Message) (s : Store) (p : ℕ)
    (opened : (s.queue_at p).closed ≡ false) (full : has_room (s.queue_at p) ≡ false) where
  send_in_channel-waits :
      (c : ℕ) → send_in_channel client p c m (with_mu free s) ≡ waits (on_queue p)
  unfolding send_in_channel send_error send_response
  send_in_channel-waits c =
      elim (Bool-cases (contains (s.channel_at c).users (s.client_at p).user)) [
        | inr outsider ↦ rw outsider (send-waits p _ (with_mu free s) opened full)
        | inl member ↦ rw member (elim (Option-cases (index_message client m)) [
          | inl stored ↦ rw stored (rw (send-waits p _ (with_mu free s) opened full))
          | inr (e, failed) ↦ rw failed (send-waits p _ (with_mu free s) opened full)
        ])
      ]

-- A message of a registered connection whose open queue is full: in every case, whether the channel
-- exists, the sender is a member and the message is stored or not, the goroutine waits until the
-- connection's own writer takes a message.
pub handle_send_message-waits :
    (client : SearchClient) (m : Message) (s : Store) (p : ℕ)
    → lookup s.clients m.client_id ≡ some p
    → (s.queue_at p).closed ≡ false
    → has_room (s.queue_at p) ≡ false
    → handle_send_message client m (with_mu free s) ≡ waits (on_queue p)
unfolding handle_send_message send_error
handle_send_message-waits client m s p registered opened full =
    rw registered (elim (Option-cases (lookup s.rooms m.channel)) [
      | inl absent ↦ rw absent (send-waits p _ (with_mu free s) opened full)
      | inr (c, room) ↦ rw room (send_in_channel-waits client m s p opened full c)
    ])
