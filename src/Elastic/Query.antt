-- ===== src/Elastic/Query.antt =====
-- internal/elastic/elastic.go: the queries as Go structs, and the JSON that their tags make of
-- them. Values are trees; their text is the encoder's.
use room_chat.Prelude.{
  ℕ, zero, suc, Bool, false, Text, text, text_beq, List, [], ◌∷◌, ◌||◌, ◌&&◌, ltb, length, ◌≡◌,
  arith,
}

mutual
  pub data Json : Type 0 where
    str : Text → Json
    num : ℕ → Json
    arr : Elements → Json
    obj : Members → Json

  pub data Elements : Type 0 where
    end : Elements
    item : Json → Elements → Elements

  pub data Members : Type 0 where
    no_fields : Members
    field : Text → Json → Members → Members

-- A term query is a map with one entry.
pub record TermQuery : Type 0 where
  pub field : Text
  pub value : Text

pub record DateHistogram : Type 0 where
  pub field : Text
  pub fixed_interval : Text
  pub min_doc_count : ℕ

-- The filters of the Boolean query; the map of the aggregations; the orders of `created_at`. Nil
-- and empty slices and maps are the same here: `omitempty` leaves out both.
pub record SearchQuery : Type 0 where
  pub filter : List TermQuery
  pub aggs : List (Text × DateHistogram)
  pub sort : List Text
  pub size : ℕ

abbrev pub single : Text → Json → Json
single name v = obj (field name v no_fields)

abbrev pub term_json : TermQuery → Json
term_json q = single (text "term") (single q.field (str q.value))

abbrev pub filter_json : List TermQuery → Elements
filter_json [] = end
filter_json (q ∷ qs) = item (term_json q) (filter_json qs)

abbrev pub sort_json : List Text → Elements
sort_json [] = end
sort_json (o ∷ os) =
    item (single (text "created_at") (single (text "order") (str o))) (sort_json os)

abbrev pub agg_json : DateHistogram → Json
agg_json h = single (text "date_histogram") (
    obj (
      field (text "field") (str h.field) (
        field (text "fixed_interval") (str h.fixed_interval)
          (field (text "min_doc_count") (num h.min_doc_count) no_fields))))

abbrev pub aggs_json : List (Text × DateHistogram) → Members
aggs_json [] = no_fields
aggs_json ((name, h) ∷ aggs) = field name (agg_json h) (aggs_json aggs)

-- The fields with `omitempty`: each is put before the rest unless it is empty.
abbrev pub with_aggs : List (Text × DateHistogram) → Members → Members
with_aggs [] rest = rest
with_aggs (a ∷ aggs) rest = field (text "aggs") (obj (aggs_json (a ∷ aggs))) rest

abbrev pub with_sort : List Text → Members → Members
with_sort [] rest = rest
with_sort (o ∷ os) rest = field (text "sort") (arr (sort_json (o ∷ os))) rest

abbrev pub with_size : ℕ → Members → Members
with_size zero rest = rest
with_size (suc n) rest = field (text "size") (num (suc n)) rest

unfoldable pub query_json : SearchQuery → Json
query_json q = obj (
    field (text "query")
      (single (text "bool") (single (text "filter") (arr (filter_json q.filter))))
      (with_aggs q.aggs (with_sort q.sort (with_size q.size no_fields))))

-- Whether an object has a field.
abbrev pub has_field : Text → Members → Bool
has_field name no_fields = false
has_field name (field f v rest) = text_beq f name || has_field name rest

-- The fields of an object, none of another value.
abbrev pub fields : Json → Members
fields (obj ms) = ms
fields (str s) = no_fields
fields (num n) = no_fields
fields (arr es) = no_fields

module _ (f : Text) where
  has_field-with_size :
      (n : ℕ) → has_field f (with_size n no_fields) ≡ (text_beq (text "size") f && ltb 0 n)
  has_field-with_size zero = ground arith
  has_field-with_size (suc n) = ground arith

  has_field-with_sort :
      (os : List Text) (rest : Members)
      → has_field f (with_sort os rest)
        ≡ (text_beq (text "sort") f && ltb 0 (length os) || has_field f rest)
  has_field-with_sort [] rest = ground arith
  has_field-with_sort (o ∷ os) rest = ground arith

  has_field-with_aggs :
      (hs : List (Text × DateHistogram)) (rest : Members)
      → has_field f (with_aggs hs rest)
        ≡ (text_beq (text "aggs") f && ltb 0 (length hs) || has_field f rest)
  has_field-with_aggs [] rest = ground arith
  has_field-with_aggs (h ∷ hs) rest = ground arith

-- The JSON of a query has the aggregations, the orders and the size exactly if they are not empty:
-- a size of 0 is left out.
pub query_json-has_field :
    (q : SearchQuery)
    → (has_field (text "size") (fields (query_json q)) ≡ ltb 0 q.size)
      × (has_field (text "sort") (fields (query_json q)) ≡ ltb 0 (length q.sort))
      × (has_field (text "aggs") (fields (query_json q)) ≡ ltb 0 (length q.aggs))
unfolding query_json
query_json-has_field q = (
  rw
      (
        has_field-with_aggs (text "size"),
        has_field-with_sort (text "size"),
        has_field-with_size (text "size"),
      )
      (ground arith),
  rw
      (
        has_field-with_aggs (text "sort"),
        has_field-with_sort (text "sort"),
        has_field-with_size (text "sort"),
      )
      (ground arith),
  rw
      (
        has_field-with_aggs (text "aggs"),
        has_field-with_sort (text "aggs"),
        has_field-with_size (text "aggs"),
      )
      (ground arith),
)
