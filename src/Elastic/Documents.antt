-- ===== src/Elastic/Documents.antt =====
-- internal/elastic/elastic.go, ListDocuments: the query for the messages of a channel, and what is
-- made of the cluster's reply. The printer and the parser of JSON and the client are parameters.
use room_chat.Prelude.{
  ℕ, Option, none, some, Text, text, text_beq, List, [], ◌∷◌, ◌++◌, if◌then◌else◌,
}
use room_chat.Elastic.{IndexedMessage, Bucket}
use room_chat.Elastic.Query.{SearchQuery, Json, query_json}

-- The reply to a search; `found` has the body.
pub data SearchReply (Reply : Type 0) : Type 0 where
  transport_error : SearchReply Reply
  error_status : ℕ → SearchReply Reply
  found : Reply → SearchReply Reply

-- `print` gives the text of a value. `decode_hits` and `decode_aggregations` read a body as a
-- SearchResponse and as an AggSearchResponse: the sources of the hits, and the map of buckets.
pub record QueryClient : Type 1 where
  pub Body : Type 0
  pub Reply : Type 0
  pub print : Json → Option Body
  pub search : Body → SearchReply Reply
  pub decode_hits : Reply → Option (List IndexedMessage)
  pub decode_aggregations : Reply → Option (List (Text × List Bucket))

-- An empty author is no filter.
unfoldable pub list_query : Text → Text → SearchQuery
list_query channel author_id = record {
  filter =
      record { field = text "channel_id"; value = channel } ∷ []
      ++ (if text_beq author_id []
          then []
          else record { field = text "author_id"; value = author_id } ∷ []);
  aggs = [];
  sort = text "desc" ∷ [];
  size = 0;
}

module _ (client : QueryClient) {A : Type 0} (decode : client.Reply → Option A) where
  abbrev pub reply_of : SearchReply client.Reply → Option A
  reply_of transport_error = none
  reply_of (error_status n) = none
  reply_of (found body) = decode body

  abbrev pub search_body : Option client.Body → Option A
  search_body none = none
  search_body (some body) = reply_of (client.search body)

  abbrev pub run_query : SearchQuery → Option A
  run_query q = search_body (client.print (query_json q))

-- `none` is an error, whose text the caller only logs.
unfoldable pub list_documents : QueryClient → Text → Text → Option (List IndexedMessage)
unfolding list_query
list_documents client channel author_id =
    run_query client client.decode_hits (list_query channel author_id)
