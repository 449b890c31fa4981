-- ===== src/Auth/RoundTrip.antt =====
-- What the parser of Basic credentials makes of a token, for the client's tokens and for any other.
use room_chat.Prelude.{
  ℕ, ◌<◌, ◌≡◌, refl, ◌≢◌, ◌∙◌, Option, none, some, [], ◌∷◌, ◌++◌, Text, length, drop, All,
  nat_beq_iff, arith,
}
use room_chat.Auth.{
  prefix, get_encoded_base64_token, cons_left, cut_colon, credentials, out_of_range, of_cut,
  of_decoded, parse_basic_auth,
}
use room_chat.Auth.Base64.{IsByte, encode_to_string, decode_string, decode-encode}

-- A user name that the credentials can carry.
abbrev pub HasNoColon : Text → Type 0
HasNoColon u = All (λ c. c ≢ b':') u

pub cut_colon-append : (u p : Text) → HasNoColon u → cut_colon (u ++ b':' ∷ p) ≡ some (u, p)
unfolding cut_colon
cut_colon-append [] p h = refl
cut_colon-append (c ∷ u) p h = ground (arith, cut_colon-append u p h.1, nat_beq_iff c b':')

All-append {κ} : (P : ℕ → Type κ) (xs ys : Text) → All P xs → All P ys → All P (xs ++ ys)
All-append P [] ys hx hy = hy
All-append P (x ∷ xs) ys hx hy = (hx.0, All-append P xs ys hx.1 hy)

parse-prefix : (t : Text) → parse_basic_auth (prefix ++ t) ≡ of_decoded (decode_string t)
unfolding parse_basic_auth
parse-prefix t = ground arith

-- The parser gives back the user name and the password from which a token was made, for every user
-- name without a colon and every password, of bytes.
pub parse-get_encoded_base64_token :
    (u p : Text)
    → All IsByte u
    → All IsByte p
    → HasNoColon u
    → parse_basic_auth (get_encoded_base64_token u p) ≡ credentials u p
unfolding get_encoded_base64_token
parse-get_encoded_base64_token u p bu bp h =
    parse-prefix (encode_to_string (u ++ b':' ∷ p))
    ∙ rw (decode-encode _ (All-append IsByte u (b':' ∷ p) bu (omega arith, bp)))
        (rw (cut_colon-append u p h))

cons_left-ne : (c : ℕ) (r : Option (Text × Text)) (p : Text) → cons_left c r ≢ some ([], p)
cons_left-ne c none p = λ h. cc
cons_left-ne c (some (u, q)) p = λ h. ground arith

head_of_cut : (c : ℕ) (s p : Text) → cut_colon (c ∷ s) ≡ some ([], p) → (c ≡ b':') × (s ≡ p)
unfolding cut_colon
head_of_cut c s p h = ground (arith, nat_beq_iff c b':', cons_left-ne c (cut_colon s) p)

-- What comes back from the parser fits the decoded text: joined by a colon the two parts are it,
-- and the first has no colon.
pub cut_colon_lem : (s u p : Text) → cut_colon s ≡ some (u, p) → (s ≡ u ++ b':' ∷ p) × HasNoColon u
unfolding cut_colon
cut_colon_lem [] u p h = cc
cut_colon_lem (c ∷ s) [] p h = ground (arith, nat_beq_iff c b':', head_of_cut c s p)
cut_colon_lem (c ∷ s) (d ∷ u) p h = ground (arith, nat_beq_iff c b':', cut_colon_lem s u p)

of_cut-ne : (r : Option (Text × Text)) → of_cut r ≢ out_of_range
of_cut-ne none = λ h. cc
of_cut-ne (some (u, p)) = λ h. cc

of_decoded-ne : (r : Option Text) → of_decoded r ≢ out_of_range
of_decoded-ne none = λ h. cc
of_decoded-ne (some cs) = of_cut-ne (cut_colon cs)

-- The parser panics exactly on the texts that are shorter than the prefix.
pub parse_panics_iff :
    (auth : Text)
    → ((parse_basic_auth auth ≡ out_of_range) → length auth < 6)
      × (length auth < 6 → parse_basic_auth auth ≡ out_of_range)
unfolding parse_basic_auth
parse_panics_iff auth =
    (λ h. ground (arith, of_decoded-ne (decode_string (drop 6 auth))), λ h. ground arith)
