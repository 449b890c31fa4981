-- ===== src/Grpc/Messages.antt =====
-- internal/server/grpc.go: ListMessages and GetMessageStats, with authorizeChannelAccess and
-- validateFixedInterval.
use room_chat.Prelude.{
  ℕ, Option, none, some, Text, text, text_beq, List, [], map, Bool, true, false, ◌||◌,
  if◌then◌else◌,
}
use room_chat.Protocol.{UserErrMessage, internal_server, not_member_of_channel}
use room_chat.Elastic.{IndexedMessage}
use room_chat.Elastic.Documents.{QueryClient, list_documents}
use room_chat.Elastic.Stats
use room_chat.Elastic.Stats.{BucketResults}
use room_chat.Store.{Exec, ◌>>=◌, pure}
use room_chat.Rooms.{is_user_a_member}
use room_chat.Http.{Context}
use room_chat.Grpc.{Code, invalid_argument, internal, Rpc, answer, status, plain_error, Timestamps}

module _ (t : Timestamps) where
  -- Message and MessageStatsBucket of the protocol.
  pub record WireMessage : Type 0 where
    pub id : Text
    pub channel_id : Text
    pub author_id : Text
    pub content : Text
    pub created_at : t.Timestamp

  pub record WireBucket : Type 0 where
    pub key : t.Timestamp
    pub count : ℕ

  abbrev pub wire_message : IndexedMessage → WireMessage
  wire_message m = record {
    id = m.id;
    channel_id = m.channel_id;
    author_id = m.author_id;
    content = m.content;
    created_at = t.new_timestamp m.created_at;
  }

  abbrev pub wire_bucket : BucketResults → WireBucket
  wire_bucket b = record { key = t.new_timestamp b.key; count = b.count }

-- The error of authorizeChannelAccess, `none` if the user is a member. The first argument is what
-- IsUserAMember returned.
abbrev pub access_error : Option Bool → Option (Code × UserErrMessage)
access_error none = some (invalid_argument, not_member_of_channel)
access_error (some false) = some (invalid_argument, not_member_of_channel)
access_error (some true) = none

unfoldable pub authorize_channel_access : Context → Text → Exec (Option (Code × UserErrMessage))
authorize_channel_access context channel_id = elim context.username [
  | none ↦ pure (some (internal, internal_server))
  | some username ↦ do member ← is_user_a_member channel_id username; pure (access_error member)
]

-- The error is a plain one; `none` if the interval is known.
unfoldable pub validate_fixed_interval : Text → Option Text
validate_fixed_interval interval =
    if text_beq interval (text "1s")
      || text_beq interval (text "1m")
      || text_beq interval (text "1h")
      || text_beq interval (text "1d")
    then none
    else some (text "invalid interval")

-- The author of a request, empty if absent.
abbrev pub author_of : Option Text → Text
author_of none = []
author_of (some author_id) = author_id

abbrev pub list_reply : (t : Timestamps) → Option (List IndexedMessage) → Rpc (List (WireMessage t))
list_reply t none = status internal internal_server
list_reply t (some messages) = answer (map (wire_message t) messages)

abbrev pub list_authorized :
    (t : Timestamps)
    → QueryClient
    → Text
    → Option Text
    → Option (Code × UserErrMessage)
    → Rpc (List (WireMessage t))
list_authorized t client channel author_id (some (c, message)) = status c message
list_authorized t client channel author_id none =
    list_reply t (list_documents client channel (author_of author_id))

unfoldable pub list_messages :
    (t : Timestamps)
    → QueryClient
    → Context
    → Text
    → Option Text
    → Exec (Rpc (List (WireMessage t)))
unfolding authorize_channel_access
list_messages t client context channel author_id = do
  refused ← authorize_channel_access context channel
  pure (list_authorized t client channel author_id refused)

abbrev pub stats_reply : (t : Timestamps) → Option (List BucketResults) → Rpc (List (WireBucket t))
stats_reply t none = status internal internal_server
stats_reply t (some buckets) = answer (map (wire_bucket t) buckets)

abbrev pub stats_of_interval :
    (t : Timestamps) → QueryClient → Text → Text → Text → Option Text → Rpc (List (WireBucket t))
stats_of_interval t client channel_id author_id interval (some e) = plain_error e
stats_of_interval t client channel_id author_id interval none =
    stats_reply t (Stats.get_message_stats client channel_id author_id interval)

abbrev pub stats_authorized :
    (t : Timestamps)
    → QueryClient
    → Text
    → Text
    → Text
    → Option (Code × UserErrMessage)
    → Rpc (List (WireBucket t))
stats_authorized t client channel_id author_id interval (some (c, message)) = status c message
stats_authorized t client channel_id author_id interval none =
    stats_of_interval t client channel_id author_id interval (validate_fixed_interval interval)

unfoldable pub get_message_stats :
    (t : Timestamps) → QueryClient → Context → Text → Text → Text → Exec (Rpc (List (WireBucket t)))
unfolding authorize_channel_access
get_message_stats t client context channel_id author_id interval = do
  refused ← authorize_channel_access context channel_id
  pure (stats_authorized t client channel_id author_id interval refused)
