-- ===== src/Elastic/Indexing.antt =====
-- When a message counts as stored.
use room_chat.Prelude.{ℕ, ◌≤◌, ◌≡◌, ap, ◌∙◌, refl, Option, some, none}
use room_chat.Protocol.{Message}
use room_chat.Elastic.{
  IndexReply, indexed, transport_error, error_status, Attempt, success, retryable, SearchClient,
  max_retries, indexed_message, attempt_of, index_message, index_body, index_result,
}

-- `retry.Do` tries once, and then at most `k` times more while the attempts fail and are retryable.
abbrev pub RetriesUpTo : SearchClient → Type 0
RetriesUpTo client =
    (k : ℕ) (f : ℕ → Attempt)
    → ((n : ℕ) → n ≤ k → f n ≡ success → client.retry k f ≡ success)
      × (client.retry k f ≡ success → (n : ℕ) × (n ≤ k) × (f n ≡ success))

attempt_of-indexed : (r : IndexReply) → attempt_of r ≡ success → r ≡ indexed
attempt_of-indexed indexed e = refl
attempt_of-indexed transport_error e = cc
attempt_of-indexed (error_status n) e = cc

index_result-success : (a : Attempt) → index_result a ≡ none → a ≡ success
index_result-success success e = refl
index_result-success retryable e = cc

module _ (client : SearchClient) (law : RetriesUpTo client) (m : Message) where
  index_body-stores :
      (o : Option client.Body)
      → index_body client m o ≡ none
      → (body : client.Body) × (n : ℕ) × (o ≡ some body)
        × (n ≤ 3)
        × (client.index m.id body n ≡ indexed)
  index_body-stores none e = cc
  index_body-stores (some body) e =
      let (n, few, worked) =
        (law max_retries (λ n. attempt_of (client.index m.id body n))).1
          (index_result-success _ e) in
      (body, n, refl, few, attempt_of-indexed (client.index m.id body n) worked)

  -- If the retry library keeps its promise: a message is reported as stored only if its document
  -- was encoded, and one of the four attempts to index it under the message's identifier succeeded.
  pub index_message-stores :
      index_message client m ≡ none
      → (body : client.Body) × (n : ℕ) × (client.marshal (indexed_message m) ≡ some body)
        × (n ≤ 3)
        × (client.index m.id body n ≡ indexed)
  unfolding index_message
  index_message-stores e = index_body-stores (client.marshal (indexed_message m)) e

  -- If the retry library keeps its promise: a message whose document is encoded is stored if one of
  -- the four attempts to index it would succeed.
  pub index_message-succeeds :
      (body : client.Body) (n : ℕ)
      → client.marshal (indexed_message m) ≡ some body
      → n ≤ 3
      → client.index m.id body n ≡ indexed
      → index_message client m ≡ none
  unfolding index_message
  index_message-succeeds body n good few worked =
      ap (index_body client m) good
      ∙ ap index_result (
          (law max_retries (λ n. attempt_of (client.index m.id body n))).0 n few
            (ap attempt_of worked))
