-- ===== src/Grpc/Listings.antt =====
-- Listing the messages of a channel by HTTP and by gRPC.
use room_chat.Prelude.{
  ◌≡◌, ◌⊎◌, ◌∙◌, inl, inr, refl, true, false, some, none, Text, text_beq, List, [], ◌∷◌, map,
  text_eq, Option-cases, Bool-cases,
}
use room_chat.Protocol.{UserErrMessage, internal_server, not_member_of_channel}
use room_chat.Elastic.{IndexedMessage}
use room_chat.Elastic.Documents.{QueryClient, list_documents}
use room_chat.Store.{Store, done}
use room_chat.Server.Invariant.{is_member}
use room_chat.Http.{
  Body, error_body, messages_body, Writer, empty_writer, Context, send_error, handle_list_messages,
}
use room_chat.Http.Guards.{
  handle_list_messages-guards, handle_list_messages-twice, handle_list_messages-member,
}
use room_chat.Grpc.{Code, invalid_argument, internal, answer, status, Timestamps}
use room_chat.Grpc.Messages.{wire_message, list_messages}
use room_chat.Grpc.Access.{authorize_channel_access-outsider, authorize_channel_access-inside}

module _ (t : Timestamps) (client : QueryClient) (context : Context) (name channel author_id : Text)
    (s : Store) (known : context.username ≡ some name) (asked : text_beq channel [] ≡ false) where
  -- Both answer with the same messages.
  abbrev pub BothList : Type 0
  BothList =
      (messages : List IndexedMessage) × (handle_list_messages client context channel author_id
          empty_writer s
        ≡ done
            (record {
              status = some 200;
              challenge = false;
              bodies = messages_body (some messages) ∷ [];
            })
            s)
      × (list_messages t client context channel (some author_id) s
          ≡ done (answer (map (wire_message t) messages)) s)

  -- Both answer with the same error.
  abbrev pub BothRefuse : Type 0
  BothRefuse =
      (w : Writer) × (c : Code) × (message : UserErrMessage) × (others : List Body)
      × (handle_list_messages client context channel author_id empty_writer s ≡ done w s)
      × (w.bodies ≡ error_body message ∷ others)
      × (list_messages t client context channel (some author_id) s ≡ done (status c message) s)

  outsider-refused : is_member s channel name ≡ false → BothRefuse
  unfolding list_messages send_error
  outsider-refused outsider = (
    _,
    invalid_argument,
    not_member_of_channel,
    [],
    handle_list_messages-guards client name channel author_id empty_writer s asked context known
        outsider,
    refl,
    rw (authorize_channel_access-outsider context name channel s known outsider),
  )

  failed-refused :
      is_member s channel name ≡ true → list_documents client channel author_id ≡ none → BothRefuse
  unfolding list_messages
  failed-refused inside failed = (
    _,
    internal,
    internal_server,
    _,
    handle_list_messages-twice client name channel author_id empty_writer s asked context known refl
        inside failed,
    refl,
    rw (authorize_channel_access-inside context name channel s known inside, failed),
  )

  member-listed :
      (messages : List IndexedMessage)
      → is_member s channel name ≡ true
      → list_documents client channel author_id ≡ some messages
      → BothList
  unfolding list_messages
  member-listed messages inside all = (
    messages,
    handle_list_messages-member client name channel author_id empty_writer s asked context known
          inside
        ∙ rw all,
    rw (authorize_channel_access-inside context name channel s known inside, all),
  )

  -- A request of an authenticated user for the messages of a channel whose name is not empty, in
  -- the same state by HTTP and by gRPC: either both list the same messages, or both give the same
  -- error, and the server's memory stays as it was.
  pub handle_list_messages-list_messages : BothList ⊎ BothRefuse
  handle_list_messages-list_messages = elim (Bool-cases (is_member s channel name)) [
    | inr outsider ↦ inr (outsider-refused outsider)
    | inl inside ↦ elim (Option-cases (list_documents client channel author_id)) [
      | inl failed ↦ inr (failed-refused inside failed)
      | inr (messages, all) ↦ inl (member-listed messages inside all)
    ]
  ]
