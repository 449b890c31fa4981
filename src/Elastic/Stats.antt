-- ===== src/Elastic/Stats.antt =====
-- internal/elastic/elastic.go, GetMessageStats: the query for the number of messages of an author
-- in a channel over time, and the buckets that it returns.
use room_chat.Prelude.{
  ℕ, suc, ◌+◌, ◌-◌, Option, none, some, Text, text, text_eq, List, [], ◌∷◌, map,
}
use room_chat.Prelude.Maps.{lookup}
use room_chat.Elastic.{ℤ, pos, negsuc, Bucket}
use room_chat.Elastic.Query.{SearchQuery}
use room_chat.Elastic.Documents.{QueryClient, run_query}

pub record BucketResults : Type 0 where
  pub key : ℕ
  pub count : ℕ

abbrev pub aggregation : Text
aggregation = text "messages_over_time"

unfoldable pub stats_query : Text → Text → Text → SearchQuery
stats_query channel author_id fixed_interval = record {
  filter =
      record { field = text "channel_id"; value = channel }
      ∷ record { field = text "author_id"; value = author_id }
      ∷ [];
  aggs =
      (
        aggregation,
        record { field = text "created_at"; fixed_interval = fixed_interval; min_doc_count = 1 },
      )
      ∷ [];
  sort = [];
  size = 0;
}

-- The milliseconds from the zero time to the Unix epoch.
abbrev pub unix_epoch : ℕ
unix_epoch = 62135596800000

-- time.UnixMilli. Times before the zero time, which no message has, are the zero time.
abbrev pub unix_milli : ℤ → ℕ
unix_milli (pos n) = unix_epoch + n
unix_milli (negsuc n) = unix_epoch - suc n

abbrev pub bucket_result : Bucket → BucketResults
bucket_result b = record { key = unix_milli b.key; count = b.doc_count }

-- `none` is the missing aggregation.
abbrev pub of_aggregation : Option (List Bucket) → Option (List BucketResults)
of_aggregation none = none
of_aggregation (some buckets) = some (map bucket_result buckets)

abbrev pub of_aggregations : Option (List (Text × List Bucket)) → Option (List BucketResults)
of_aggregations none = none
of_aggregations (some aggregations) = of_aggregation (lookup aggregations aggregation)

unfoldable pub get_message_stats : QueryClient → Text → Text → Text → Option (List BucketResults)
unfolding stats_query
get_message_stats client channel author_id fixed_interval =
    of_aggregations
      (run_query client client.decode_aggregations (stats_query channel author_id fixed_interval))
