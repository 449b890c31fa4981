-- ===== src/Grpc/Access.antt =====
-- Who gets past the guards of the gRPC server.
use room_chat.Prelude.{
  ℕ, ◌≡◌, refl, true, false, Option, some, none, Text, text_eq, arith, inl, inr, Option-cases,
  Bool-cases,
}
use room_chat.Prelude.Sets.{contains}
use room_chat.Prelude.Maps.{lookup}
use room_chat.Protocol.{UserErrMessage, not_member_of_channel}
use room_chat.Users.{Repository, Bcrypt}
use room_chat.Elastic.Documents.{QueryClient}
use room_chat.Store.{Store, done}
use room_chat.Server.Invariant.{is_member}
use room_chat.Http.{Context}
use room_chat.Http.Guards.{membership, is_user_a_member_lem}
use room_chat.Grpc.{Code, invalid_argument, Rpc, answer, status, Timestamps}
use room_chat.Grpc.Messages.{
  access_error, authorize_channel_access, list_authorized, list_messages, stats_authorized,
  get_message_stats,
}
use room_chat.Grpc.Interceptor.{
  RpcRequest, register_profile_request, update_profile_request, list_messages_request,
  message_stats_request, RpcResponse, messages, buckets, map_answer, call,
}

-- The channel that a request reads, if any.
abbrev pub channel_read : RpcRequest → Option Text
channel_read (register_profile_request req) = none
channel_read (update_profile_request nick) = none
channel_read (list_messages_request channel author_id) = some channel
channel_read (message_stats_request channel_id author_id interval) = some channel_id

abbrev pub IsMemberOf : Store → Text → Option Text → Type 0
IsMemberOf s name none = Unit
IsMemberOf s name (some channel) = is_member s channel name ≡ true

outsider_error :
    (o : Option ℕ)
    → access_error (membership o false) ≡ some (invalid_argument, not_member_of_channel)
outsider_error none = refl
outsider_error (some c) = refl

authorize_channel_access-member :
    (context : Context) (name channel : Text) (s : Store)
    → context.username ≡ some name
    → authorize_channel_access context channel s
      ≡ done (access_error (membership (lookup s.rooms channel) (is_member s channel name))) s
unfolding authorize_channel_access
authorize_channel_access-member context name channel s known =
    rw (known, is_user_a_member_lem channel name s)

pub authorize_channel_access-outsider :
    (context : Context) (name channel : Text) (s : Store)
    → context.username ≡ some name
    → is_member s channel name ≡ false
    → authorize_channel_access context channel s
      ≡ done (some (invalid_argument, not_member_of_channel)) s
authorize_channel_access-outsider context name channel s known outsider = rw (
  authorize_channel_access-member context name channel s known,
  outsider,
  outsider_error (lookup s.rooms channel),
)

pub authorize_channel_access-inside :
    (context : Context) (name channel : Text) (s : Store)
    → context.username ≡ some name
    → is_member s channel name ≡ true
    → authorize_channel_access context channel s ≡ done none s
unfolding contains
authorize_channel_access-inside context name channel s known inside =
    elim (Option-cases (lookup s.rooms channel)) [
      | inl absent ↦ absurd (ground arith)
      | inr (c, room) ↦
          rw (authorize_channel_access-member context name channel s known, inside, room)
    ]

some_inj : {A : Type 0} {a b : A} → some a ≡ some b → a ≡ b
some_inj e = cc

module _ (t : Timestamps) (repo : Repository) (bcrypt : Bcrypt) (client : QueryClient) (salt : ℕ)
    (db : repo.Db) (s : Store) where
  -- A request of an authenticated user for the messages or the statistics of a channel of which
  -- the user is no member: the answer is the same error whether or not the channel exists, whatever
  -- the index holds, and the server's memory and the database are as they were.
  pub call-hides :
      (req : RpcRequest) (context : Context) (name channel : Text)
      → channel_read req ≡ some channel
      → context.username ≡ some name
      → is_member s channel name ≡ false
      → call t repo bcrypt client salt db req context s
        ≡ done (status invalid_argument not_member_of_channel, db) s
  unfolding list_messages get_message_stats
  call-hides (register_profile_request req) context name channel reads known outsider = cc
  call-hides (update_profile_request nick) context name channel reads known outsider = cc
  call-hides (list_messages_request asked author_id) context name channel reads known outsider =
      rw (
        authorize_channel_access-outsider context name asked s known (rw (some_inj reads) outsider))
  call-hides (message_stats_request asked author_id interval) context name channel reads known
        outsider =
      rw (
        authorize_channel_access-outsider context name asked s known (rw (some_inj reads) outsider))

  abbrev access : Text → Text → Option (Code × UserErrMessage)
  access channel name =
      access_error (membership (lookup s.rooms channel) (is_member s channel name))

  call_store :
      (req : RpcRequest) (context : Context) (name : Text)
      → context.username ≡ some name
      → (x : Rpc (RpcResponse t) × repo.Db) × (call t repo bcrypt client salt db req context s
          ≡ done x s)
  unfolding list_messages get_message_stats
  call_store (register_profile_request req) context name known = (_, refl)
  call_store (update_profile_request nick) context name known = (_, refl)
  call_store (list_messages_request asked author_id) context name known = (
    (map_answer messages (list_authorized t client asked author_id (access asked name)), db),
    rw (authorize_channel_access-member context name asked s known),
  )
  call_store (message_stats_request asked author_id interval) context name known = (
    (
      map_answer buckets (stats_authorized t client asked author_id interval (access asked name)),
      db,
    ),
    rw (authorize_channel_access-member context name asked s known),
  )

  module _ (context : Context) (name : Text) (known : context.username ≡ some name)
      (r : RpcResponse t) (db' : repo.Db) (s' : Store) where
    call-channel :
        (req : RpcRequest) (o : Option Text)
        → channel_read req ≡ o
        → call t repo bcrypt client salt db req context s ≡ done (answer r, db') s'
        → IsMemberOf s name o
    call-channel req none reads run = tt
    call-channel req (some channel) reads run = elim (Bool-cases (is_member s channel name)) [
      | inl inside ↦ inside
      | inr outsider ↦
          let hidden = call-hides req context name channel reads known outsider in absurd cc
    ]

    pub call-member :
        (req : RpcRequest)
        → call t repo bcrypt client salt db req context s ≡ done (answer r, db') s'
        → (s' ≡ s) × IsMemberOf s name (channel_read req)
    call-member req run =
        let (x, e) = call_store req context name known in
        (cc, call-channel req (channel_read req) refl run)
