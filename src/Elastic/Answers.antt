-- ===== src/Elastic/Answers.antt =====
-- What a search returns, against the reply of the cluster.
use room_chat.Prelude.{◌≡◌, refl, ◌↔◌, Option, none, some, Text, text_eq, List, map}
use room_chat.Prelude.Maps.{lookup}
use room_chat.Elastic.{IndexedMessage, Bucket}
use room_chat.Elastic.Query.{SearchQuery, query_json}
use room_chat.Elastic.Documents.{
  SearchReply, transport_error, error_status, found, QueryClient, reply_of, search_body, run_query,
  list_query, list_documents,
}
use room_chat.Elastic.Stats.{
  BucketResults, aggregation, bucket_result, of_aggregation, of_aggregations, stats_query,
  get_message_stats,
}

-- The query is printed, and the cluster's reply to it has a body that is read as `a`.
abbrev pub Answers :
    (client : QueryClient) {A : Type 0} → (client.Reply → Option A) → SearchQuery → A → Type 0
Answers client decode q a =
    (body : client.Body) × (reply : client.Reply) × (client.print (query_json q) ≡ some body)
    × (client.search body ≡ found reply)
    × (decode reply ≡ some a)

module _ (client : QueryClient) {A : Type 0} (decode : client.Reply → Option A) (a : A) where
  reply_of-some :
      (r : SearchReply client.Reply)
      → reply_of client decode r ≡ some a
      → (reply : client.Reply) × (r ≡ found reply) × (decode reply ≡ some a)
  reply_of-some transport_error e = cc
  reply_of-some (error_status n) e = cc
  reply_of-some (found reply) e = (reply, refl, e)

  search_body-some :
      (o : Option client.Body)
      → search_body client decode o ≡ some a
      → (body : client.Body) × (reply : client.Reply) × (o ≡ some body)
        × (client.search body ≡ found reply)
        × (decode reply ≡ some a)
  search_body-some none e = cc
  search_body-some (some body) e =
      let (reply, replied, read) = reply_of-some (client.search body) e in
      (body, reply, refl, replied, read)

  run_query-Answers :
      (q : SearchQuery) → (run_query client decode q ≡ some a) ↔ Answers client decode q a
  run_query-Answers q = (
    search_body-some (client.print (query_json q)),
    λ (body, reply, printed, replied, read). rw (printed, replied) read,
  )

-- Listing the messages of a channel returns messages exactly if the query is printed and the
-- cluster's reply to it holds these messages; in every other case it returns an error.
list_documents-Answers :
    (client : QueryClient) (channel author_id : Text) (messages : List IndexedMessage)
    → (list_documents client channel author_id ≡ some messages)
      ↔ Answers client client.decode_hits (list_query channel author_id) messages
unfolding list_documents
list_documents-Answers client channel author_id messages =
    run_query-Answers client client.decode_hits messages (list_query channel author_id)

of_aggregation-some :
    (o : Option (List Bucket)) (results : List BucketResults)
    → of_aggregation o ≡ some results
    → (buckets : List Bucket) × (o ≡ some buckets) × (map bucket_result buckets ≡ results)
of_aggregation-some none results e = cc
of_aggregation-some (some buckets) results e = (buckets, refl, cc)

of_aggregations-some :
    (o : Option (List (Text × List Bucket))) (results : List BucketResults)
    → of_aggregations o ≡ some results
    → (aggregations : List (Text × List Bucket)) × (buckets : List Bucket) × (o ≡ some aggregations)
      × (lookup aggregations aggregation ≡ some buckets)
      × (map bucket_result buckets ≡ results)
of_aggregations-some none results e = cc
of_aggregations-some (some aggregations) results e =
    let (buckets, present, same) =
      of_aggregation-some (lookup aggregations aggregation) results e in
    (aggregations, buckets, refl, present, same)

-- The statistics are returned exactly if the query is printed and the cluster's reply to it has
-- the aggregation asked for, and are its buckets, in their order, with the time of each key; in
-- every other case an error is returned.
pub get_message_stats-Answers :
    (client : QueryClient) (channel author_id fixed_interval : Text) (results : List BucketResults)
    → (get_message_stats client channel author_id fixed_interval ≡ some results) ↔ (
        (aggregations : List (Text × List Bucket)) × (buckets : List Bucket) × Answers client
          client.decode_aggregations
          (stats_query channel author_id fixed_interval)
          aggregations
        × (lookup aggregations aggregation ≡ some buckets)
        × (map bucket_result buckets ≡ results))
unfolding get_message_stats
get_message_stats-Answers client channel author_id fixed_interval results = (
  λ e.
      let (aggregations, buckets, ran, present, same) = of_aggregations-some _ results e in
      (
        aggregations,
        buckets,
        (run_query-Answers client client.decode_aggregations aggregations
              (stats_query channel author_id fixed_interval)).0
            ran,
        present,
        same,
      ),
  λ (aggregations, buckets, answered, present, e).
      rw
        (
          (run_query-Answers client client.decode_aggregations aggregations
                (stats_query channel author_id fixed_interval)).1
              answered,
          present,
          e,
        )
        refl,
)
