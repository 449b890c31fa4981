-- ===== src/Grpc/Statistics.antt =====
-- What the gRPC server answers when asked for statistics or messages.
use room_chat.Prelude.{
  ◌≡◌, ◌≢◌, ◌∙◌, ◌↔◌, ◌⊎◌, inl, inr, refl, ap, true, Option, some, none, Text, text, text_beq_iff,
  List, map, text_eq, arith, Bool-cases,
}
use room_chat.Prelude.Maps.{lookup}
use room_chat.Protocol.{UserErrMessage}
use room_chat.Elastic.{Bucket}
use room_chat.Elastic.Documents.{QueryClient}
use room_chat.Elastic.Stats
use room_chat.Elastic.Stats.{BucketResults, aggregation, bucket_result, stats_query}
use room_chat.Elastic.Answers.{Answers, get_message_stats-Answers}
use room_chat.Store.{Store, done}
use room_chat.Server.Invariant.{is_member}
use room_chat.Http.{Context}
use room_chat.Grpc.{Code, answer, status, Timestamps}
use room_chat.Grpc.Messages.{
  WireBucket, wire_bucket, validate_fixed_interval, stats_reply, stats_of_interval,
  get_message_stats,
}
use room_chat.Grpc.Access.{authorize_channel_access-outsider, authorize_channel_access-inside}

abbrev pub IsInterval : Text → Type 0
IsInterval interval =
    (interval ≡ text "1s")
    ⊎ (interval ≡ text "1m")
    ⊎ (interval ≡ text "1h")
    ⊎ (interval ≡ text "1d")

-- The four intervals, and no other text, are accepted.
validate_fixed_interval-IsInterval :
    (interval : Text) → (validate_fixed_interval interval ≡ none) ↔ IsInterval interval
unfolding validate_fixed_interval
validate_fixed_interval-IsInterval interval = (
  λ e. ground (
    arith,
    text_beq_iff interval (text "1s"),
    text_beq_iff interval (text "1m"),
    text_beq_iff interval (text "1h"),
    text_beq_iff interval (text "1d"),
  ),
  λ e. ground (
    arith,
    text_beq_iff interval (text "1s"),
    text_beq_iff interval (text "1m"),
    text_beq_iff interval (text "1h"),
    text_beq_iff interval (text "1d"),
  ),
)

module _ (t : Timestamps) (buckets : List (WireBucket t)) where
  stats_reply-answer :
      (o : Option (List BucketResults))
      → stats_reply t o ≡ answer buckets
      → (results : List BucketResults) × (o ≡ some results)
        × (map (wire_bucket t) results ≡ buckets)
  stats_reply-answer none e = cc
  stats_reply-answer (some results) e = (results, refl, cc)

  stats_of_interval-answer :
      (client : QueryClient) (channel author_id interval : Text) (o : Option Text)
      → stats_of_interval t client channel author_id interval o ≡ answer buckets
      → (o ≡ none)
        × (stats_reply t (Stats.get_message_stats client channel author_id interval)
            ≡ answer buckets)
  stats_of_interval-answer client channel author_id interval none e = (refl, e)
  stats_of_interval-answer client channel author_id interval (some x) e = cc

rejected : {A : Type 0} {c : Code} {m : UserErrMessage} {a : A} → status c m ≢ answer a
rejected e = cc

done_inj : {A : Type 0} {a b : A} {s s' : Store} → done a s ≡ done b s' → a ≡ b
done_inj e = cc

module _ (t : Timestamps) (client : QueryClient) (context : Context) (name channel author_id : Text)
    (interval : Text) (s : Store) (known : context.username ≡ some name)
    (buckets : List (WireBucket t)) where
  -- A request of an authenticated user for statistics is answered exactly if the user is a member
  -- of the channel, the interval is one of the four, and the cluster's reply to the query has the
  -- aggregation; the answer has its buckets, in their order.
  pub get_message_stats-answer :
      (get_message_stats t client context channel author_id interval s ≡ done (answer buckets) s)
      ↔ ((is_member s channel name ≡ true)
          × IsInterval interval
          × (aggregations : List (Text × List Bucket)) × (found : List Bucket) × Answers client
              client.decode_aggregations
              (stats_query channel author_id interval)
              aggregations
          × (lookup aggregations aggregation ≡ some found)
          × (map (wire_bucket t) (map bucket_result found) ≡ buckets))
  unfolding get_message_stats
  get_message_stats-answer = (
    λ run. elim (Bool-cases (is_member s channel name)) [
      | inl inside ↦
          let ran =
            done_inj
              (rw (authorize_channel_access-inside context name channel s known inside) at run) in
          let (valid, replied) =
            stats_of_interval-answer t buckets client channel author_id interval _ ran in
          let (results, counted, same) = stats_reply-answer t buckets _ replied in
          let (aggregations, found, asked, has, made) =
            (get_message_stats-Answers client channel author_id interval results).0 counted in
          (
            inside,
            (validate_fixed_interval-IsInterval interval).0 valid,
            aggregations,
            found,
            asked,
            has,
            ap (map (wire_bucket t)) made ∙ same,
          )
      | inr outsider ↦ absurd (
          rejected (
            done_inj (
              rw (authorize_channel_access-outsider context name channel s known outsider) at run)))
    ],
    λ (inside, valid, aggregations, found, asked, has, same). rw (
      authorize_channel_access-inside context name channel s known inside,
      (validate_fixed_interval-IsInterval interval).1 valid,
      (get_message_stats-Answers client channel author_id interval (map bucket_result found)).1
          (aggregations, found, asked, has, refl),
      same,
    ),
  )
