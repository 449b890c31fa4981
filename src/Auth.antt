-- ===== src/Auth.antt =====
-- internal/utils/utils.go: the Basic credentials, with the base64 of Go's encoding/base64
-- (StdEncoding, padded) that they use, over bytes.
pub mod Base64
pub mod RoundTrip
use Base64.{decode_string, encode_to_string}
use room_chat.Prelude.{
  ℕ, Option, none, some, [], ◌∷◌, ◌++◌, Text, text, length, drop, ltb, nat_beq, if◌then◌else◌,
}

-- `prefix`, and its length.
abbrev pub prefix : Text
prefix = text "Basic "

-- fmt.Sprintf("%s:%s", username, password), encoded.
unfoldable pub get_encoded_base64_token : Text → Text → Text
get_encoded_base64_token username password =
    prefix ++ encode_to_string (username ++ b':' ∷ password)

abbrev pub cons_left : ℕ → Option (Text × Text) → Option (Text × Text)
cons_left c none = none
cons_left c (some (u, p)) = some (c ∷ u, p)

-- strings.Cut(s, ":"): the parts around the first colon.
unfoldable pub cut_colon : Text → Option (Text × Text)
cut_colon [] = none
cut_colon (c ∷ s) = if nat_beq c b':' then some ([], s) else cons_left c (cut_colon s)

-- What the function does: it returns the two parts with `ok`, returns without `ok`, or slices past
-- the end of a string, which is a run-time panic.
pub data Parsed : Type 0 where
  credentials : Text → Text → Parsed
  not_ok out_of_range : Parsed

abbrev pub of_cut : Option (Text × Text) → Parsed
of_cut none = not_ok
of_cut (some (u, p)) = credentials u p

abbrev pub of_decoded : Option Text → Parsed
of_decoded none = not_ok
of_decoded (some cs) = of_cut (cut_colon cs)

unfoldable pub parse_basic_auth : Text → Parsed
parse_basic_auth auth =
    if ltb (length auth) (length prefix)
    then out_of_range
    else of_decoded (decode_string (drop (length prefix) auth))
