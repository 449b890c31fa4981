-- ===== src/Tests/Grpc.antt =====
-- The theorems on the gRPC server and on the statistics at concrete inputs.
use room_chat.Prelude.{
  ℕ, ◌≡◌, ◌↔◌, refl, some, none, true, Text, text, List, [], ◌∷◌, map, arith, inl, inr, text_eq,
}
use room_chat.Prelude.Maps.{lookup}
use room_chat.Protocol.{not_member_of_channel}
use room_chat.User.{Profile}
use room_chat.Users.{register}
use room_chat.Auth.{get_encoded_base64_token}
use room_chat.Elastic.{Bucket, pos, IndexedMessage}
use room_chat.Elastic.Query.{Json}
use room_chat.Elastic.Documents.{QueryClient, found}
use room_chat.Elastic.Stats.{aggregation, bucket_result, stats_query}
use room_chat.Elastic.Answers.{Answers}
use room_chat.Store.{done, pure}
use room_chat.Server.Invariant.{is_member}
use room_chat.Http.{Context, handle_register, empty_writer}
use room_chat.Grpc.{answer, status, invalid_argument, Timestamps}
use room_chat.Grpc.Messages
use room_chat.Grpc.Messages.{WireBucket, wire_bucket}
use room_chat.Grpc.Profiles.{register_profile}
use room_chat.Grpc.Interceptor.{
  auth_interceptor, list_messages_request, message_stats_request, buckets, call, serve,
}
use room_chat.Grpc.Access.{IsMemberOf, call-hides}
use room_chat.Grpc.Grants.{LogsIn, serve-Granted}
use room_chat.Grpc.Statistics.{IsInterval, get_message_stats-answer}
use room_chat.Grpc.Enrollment.{
  as_http, handle_register-register_profile, auth_interceptor-register_profile,
}
use room_chat.Tests.Fixture.{repository, plain, s2, s3, alice, go, login_alice}
use room_chat.Tests.Runs.{s1_state, s2_state, s3_state}
use room_chat.Tests.Parts.{accounts, new_bob, plain-Verifies, accounts-KeepsCreated}

-- Timestamps are the numbers themselves.
abbrev pub clock : Timestamps
clock = record { Timestamp = ℕ; new_timestamp = λ n. n }

abbrev hour : Bucket
hour = record { key_as_string = []; key = pos 3600000; doc_count = 2 }

abbrev pub hello : IndexedMessage
hello = record {
  id = text "m";
  channel_id = go;
  author_id = alice;
  content = text "hello";
  created_at = 7;
}

-- A cluster with one message and one bucket.
abbrev pub index : QueryClient
index = record {
  Body = Json;
  Reply = Unit;
  print = λ q. some q;
  search = λ body. found tt;
  decode_hits = λ reply. some (hello ∷ []);
  decode_aggregations = λ reply. some ((aggregation, hour ∷ []) ∷ []);
}

abbrev pub as_alice : Context
as_alice = record { user_id = some 1; username = some alice }

call-hides_example :
    call clock repository plain index 0 tt (list_messages_request go none) as_alice s2
    ≡ done (status invalid_argument not_member_of_channel, tt) s2
call-hides_example =
    call-hides clock repository plain index 0 tt s2 (list_messages_request go none) as_alice alice
      go refl refl s2_state.5

handle_register-register_profile_example :
    handle_register accounts plain 0 (some new_bob) [] empty_writer
    ≡ as_http accounts plain (register_profile accounts plain 0 new_bob [])
handle_register-register_profile_example =
    handle_register-register_profile accounts plain 0 new_bob []

get_message_stats-answer_example :
    (Messages.get_message_stats clock index as_alice go alice (text "1h") s3
      ≡ done (answer (wire_bucket clock (bucket_result hour) ∷ [])) s3)
    ↔ ((is_member s3 go alice ≡ true)
        × IsInterval (text "1h")
        × (aggregations : List (Text × List Bucket)) × (found : List Bucket) × Answers index
            index.decode_aggregations
            (stats_query go alice (text "1h"))
            aggregations
        × (lookup aggregations aggregation ≡ some found)
        × (map (wire_bucket clock) (map bucket_result found)
            ≡ wire_bucket clock (bucket_result hour) ∷ []))
get_message_stats-answer_example =
    get_message_stats-answer clock index as_alice alice go alice (text "1h") s3 refl
      (wire_bucket clock (bucket_result hour) ∷ [])

bob_registered : register_profile accounts plain 0 new_bob [] ≡ (answer 1, new_bob ∷ [])
unfolding register_profile register
bob_registered = refl

auth_interceptor-register_profile_example :
    auth_interceptor accounts plain
      (λ context. pure context.user_id)
      (λ c message. none)
      (text "/room_chat.RoomChat/UpdateProfile")
      (some (get_encoded_base64_token (text "bob") (text "pw") ∷ []))
      (new_bob ∷ [])
    ≡ pure (some 1)
auth_interceptor-register_profile_example =
    auth_interceptor-register_profile accounts plain 0 new_bob 1 [] (new_bob ∷ [])
      (λ context. pure context.user_id) (λ c message. none)
      (text "/room_chat.RoomChat/UpdateProfile") [] plain-Verifies accounts-KeepsCreated
      (omega arith, (omega arith, (omega arith, tt))) (omega arith, (omega arith, tt))
      (omega arith, (omega arith, (omega arith, tt))) refl bob_registered

found_there : lookup ((aggregation, hour ∷ []) ∷ []) aggregation ≡ some (hour ∷ [])
unfolding lookup
found_there = refl

alice_counts :
    serve clock repository plain index 0 tt
      (message_stats_request go alice (text "1h"))
      (some (login_alice.request.token ∷ []))
      s3
    ≡ done (answer (buckets (wire_bucket clock (bucket_result hour) ∷ [])), tt) s3
unfolding serve auth_interceptor
alice_counts = rw (
  s1_state.3,
  s1_state.4,
  get_message_stats-answer_example.1 (
    s3_state.5,
    inr (inr (inl refl)),
    (aggregation, hour ∷ []) ∷ [],
    hour ∷ [],
    (_, tt, refl, refl, refl),
    found_there,
    refl,
  ),
)

serve-Granted_example :
    (name : Text) × (profile : Profile) × LogsIn repository plain tt
      (some (login_alice.request.token ∷ []))
      name
      profile
    × (s3 ≡ s3)
    × IsMemberOf s3 name (some go)
serve-Granted_example =
    serve-Granted clock repository plain index 0 tt s3 (message_stats_request go alice (text "1h"))
      (some (login_alice.request.token ∷ []))
      (buckets (wire_bucket clock (bucket_result hour) ∷ [])) tt s3 alice_counts refl
