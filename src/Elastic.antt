-- ===== src/Elastic.antt =====
-- internal/elastic/elastic.go: the documents that the server stores for each message sent. The
-- JSON encoder, the Elasticsearch client and the retry library are parameters.
pub mod Indexing
pub mod Query
pub mod Documents
pub mod Stats
pub mod Answers
use room_chat.Prelude.{ℕ, Option, none, some, Text}
use room_chat.Protocol.{Message}

pub record IndexedMessage : Type 0 where
  pub id : Text
  pub channel_id : Text
  pub author_id : Text
  pub content : Text
  pub created_at : ℕ

-- A number of type int64, that may be negative.
pub data ℤ : Type 0 where
  pos : ℕ → ℤ
  negsuc : ℕ → ℤ

-- `key` is in milliseconds from the Unix epoch.
pub record Bucket : Type 0 where
  pub key_as_string : Text
  pub key : ℤ
  pub doc_count : ℕ

pub data IndexReply : Type 0 where
  indexed transport_error : IndexReply
  error_status : ℕ → IndexReply

-- What one attempt returns to the retry library. The code marks every failure as retryable.
pub data Attempt : Type 0 where
  success retryable : Attempt

pub data IndexError : Type 0 where
  marshal_error indexing_error : IndexError

-- `index id body n` is the reply to the attempt number `n`; `retry k f` is `retry.Do` with at most
-- `k` retries, given the result of each attempt, and says whether it returned no error.
pub record SearchClient : Type 1 where
  pub Body : Type 0
  pub marshal : IndexedMessage → Option Body
  pub index : Text → Body → ℕ → IndexReply
  pub retry : ℕ → (ℕ → Attempt) → Attempt

abbrev pub max_retries : ℕ
max_retries = 3

unfoldable pub indexed_message : Message → IndexedMessage
indexed_message m = record {
  id = m.id;
  channel_id = m.channel;
  author_id = m.user;
  content = m.request.content;
  created_at = m.created_at;
}

abbrev pub attempt_of : IndexReply → Attempt
attempt_of indexed = success
attempt_of transport_error = retryable
attempt_of (error_status n) = retryable

-- What is returned after the attempts: `none` if the message is stored.
abbrev pub index_result : Attempt → Option IndexError
index_result success = none
index_result retryable = some indexing_error

module _ (search : SearchClient) where
  abbrev pub index_body : Message → Option search.Body → Option IndexError
  index_body m none = some marshal_error
  index_body m (some body) =
      index_result (search.retry max_retries (λ n. attempt_of (search.index m.id body n)))

  unfoldable pub index_message : Message → Option IndexError
  unfolding indexed_message
  index_message m = index_body m (search.marshal (indexed_message m))
