-- ===== src/Auth/Base64.antt =====
-- Go's base64.StdEncoding over bytes. A decoder skips line breaks, wants the padding, and stops at
-- it; the bits that the padding leaves over are not looked at.
use room_chat.Prelude.{
  ℕ, ◌+◌, ◌-◌, ◌*◌, ◌/◌, ◌%◌, ◌<◌, ◌≡◌, refl, Bool, true, false, ◌&&◌, ◌||◌, Option, none, some, [],
  ◌∷◌, ◌++◌, Text, All, ap, ltb, leb, nat_beq, if◌then◌else◌, arith,
}

-- The alphabet A-Z a-z 0-9 + /, from a number below 64.
unfoldable pub symbol : ℕ → ℕ
symbol i =
    if ltb i 26
    then b'A' + i
    else if ltb i 52
    then b'a' + (i - 26)
    else if ltb i 62
    then b'0' + (i - 52)
    else if nat_beq i 62
    then b'+'
    else b'/'

unfoldable pub sextet : ℕ → Option ℕ
sextet c =
    if leb b'A' c && leb c b'Z'
    then some (c - b'A')
    else if leb b'a' c && leb c b'z'
    then some (c - b'a' + 26)
    else if leb b'0' c && leb c b'9'
    then some (c - b'0' + 52)
    else if nat_beq c b'+'
    then some 62
    else if nat_beq c b'/'
    then some 63
    else none

unfoldable pub encode_to_string : Text → Text
unfolding symbol
encode_to_string [] = []
encode_to_string (a ∷ []) = symbol (a / 4) ∷ symbol (a % 4 * 16) ∷ b'=' ∷ b'=' ∷ []
encode_to_string (a ∷ b ∷ []) =
    symbol (a / 4) ∷ symbol (a % 4 * 16 + b / 16) ∷ symbol (b % 16 * 4) ∷ b'=' ∷ []
encode_to_string (a ∷ b ∷ c ∷ s) =
    symbol (a / 4)
    ∷ symbol (a % 4 * 16 + b / 16)
    ∷ symbol (b % 16 * 4 + c / 64)
    ∷ symbol (c % 64)
    ∷ encode_to_string s

is_line_break : ℕ → Bool
is_line_break c = nat_beq c 10 || nat_beq c 13

skip_line_breaks : Text → Text
skip_line_breaks [] = []
skip_line_breaks (c ∷ s) =
    let rest = skip_line_breaks s in if is_line_break c then rest else c ∷ rest

abbrev is_empty : Text → Bool
is_empty [] = true
is_empty (c ∷ s) = false

abbrev prepend : Text → Option Text → Option Text
prepend s none = none
prepend s (some t) = some (s ++ t)

-- The last two symbols of a quantum whose first two stand for `x` and `y`; `rest` is what follows
-- it, and `decoded` what that decodes to.
finish : ℕ → ℕ → ℕ → ℕ → Text → Option Text → Option Text
finish x y c d rest decoded =
    if nat_beq c b'='
    then (if nat_beq d b'=' && is_empty rest then some ((x * 4 + y / 16) ∷ []) else none)
    else elim (sextet c) [
      | none ↦ none
      | some z ↦
          if nat_beq d b'='
          then (if is_empty rest
              then some ((x * 4 + y / 16) ∷ (y % 16 * 16 + z / 4) ∷ [])
              else none)
          else elim (sextet d) [
            | none ↦ none
            | some w ↦
                prepend ((x * 4 + y / 16) ∷ (y % 16 * 16 + z / 4) ∷ (z % 4 * 64 + w) ∷ []) decoded
          ]
    ]

decode_quanta : Text → Option Text
decode_quanta [] = some []
decode_quanta (a ∷ b ∷ c ∷ d ∷ rest) =
    let decoded = decode_quanta rest in
    elim (sextet a) [
      | none ↦ none
      | some x ↦ elim (sextet b) [ none ↦ none | some y ↦ finish x y c d rest decoded ]
    ]
decode_quanta _ = none

unfoldable pub decode_string : Text → Option Text
unfolding decode_quanta finish sextet skip_line_breaks is_line_break
decode_string s = decode_quanta (skip_line_breaks s)

abbrev pub IsByte : ℕ → Type 0
IsByte b = b < 256

symbol-sextet : (i : ℕ) → i < 64 → sextet (symbol i) ≡ some i
unfolding symbol sextet
symbol-sextet i h = ground arith

symbol_plain : (i : ℕ) → (is_line_break (symbol i) ≡ false) × (nat_beq (symbol i) b'=' ≡ false)
unfolding symbol is_line_break
symbol_plain i = ground arith

skip-symbol : (i : ℕ) (s : Text) → skip_line_breaks (symbol i ∷ s) ≡ symbol i ∷ skip_line_breaks s
unfolding skip_line_breaks
skip-symbol i s = rw (symbol_plain i).0

skip-pad : (s : Text) → skip_line_breaks (b'=' ∷ s) ≡ b'=' ∷ skip_line_breaks s
unfolding skip_line_breaks is_line_break
skip-pad s = refl

skip-nil : skip_line_breaks [] ≡ []
unfolding skip_line_breaks
skip-nil = refl

ruleset kept = (skip-symbol, skip-pad, skip-nil)

skip_line_breaks-encode : (s : Text) → skip_line_breaks (encode_to_string s) ≡ encode_to_string s
unfolding encode_to_string
skip_line_breaks-encode [] = simp kept
skip_line_breaks-encode (a ∷ []) = simp kept
skip_line_breaks-encode (a ∷ b ∷ []) = simp kept
skip_line_breaks-encode (a ∷ b ∷ c ∷ s) = simp (kept, skip_line_breaks-encode s)

decode-symbols :
    (i j c d : ℕ) (rest : Text)
    → i < 64
    → j < 64
    → decode_quanta (symbol i ∷ symbol j ∷ c ∷ d ∷ rest) ≡ finish i j c d rest (decode_quanta rest)
unfolding decode_quanta
decode-symbols i j c d rest hi hj = ground (arith, symbol-sextet i hi, symbol-sextet j hj)

decode-nil : decode_quanta [] ≡ some []
unfolding decode_quanta
decode-nil = refl

-- Three bytes, cut into four sextets and put together again.
three_bytes :
    (a b c : ℕ)
    → a < 256
    → b < 256
    → c < 256
    → (a / 4 * 4 + (a % 4 * 16 + b / 16) / 16 ≡ a)
      × ((a % 4 * 16 + b / 16) % 16 * 16 + (b % 16 * 4 + c / 64) / 4 ≡ b)
      × ((b % 16 * 4 + c / 64) % 4 * 64 + c % 64 ≡ c)
three_bytes a b c ha hb hc = omega arith

finish_one : (a : ℕ) → a < 256 → finish (a / 4) (a % 4 * 16) b'=' b'=' [] (some []) ≡ some (a ∷ [])
unfolding finish
finish_one a h = ap (λ n. some (n ∷ [])) (omega arith)

finish_two :
    (a b : ℕ)
    → a < 256
    → b < 256
    → finish (a / 4) (a % 4 * 16 + b / 16) (symbol (b % 16 * 4)) b'=' [] (some [])
      ≡ some (a ∷ b ∷ [])
unfolding finish
finish_two a b ha hb =
    ground (arith, symbol-sextet (b % 16 * 4), symbol_plain (b % 16 * 4), three_bytes a b 0)

finish_three :
    (a b c : ℕ) (s t : Text)
    → a < 256
    → b < 256
    → c < 256
    → finish
        (a / 4)
        (a % 4 * 16 + b / 16)
        (symbol (b % 16 * 4 + c / 64))
        (symbol (c % 64))
        t
        (some s)
      ≡ some (a ∷ b ∷ c ∷ s)
unfolding finish
finish_three a b c s t ha hb hc = ground (
  arith,
  symbol-sextet (b % 16 * 4 + c / 64),
  symbol-sextet (c % 64),
  symbol_plain (b % 16 * 4 + c / 64),
  symbol_plain (c % 64),
  three_bytes a b c,
)

decode_quanta-encode : (s : Text) → All IsByte s → decode_quanta (encode_to_string s) ≡ some s
unfolding encode_to_string
decode_quanta-encode [] h = decode-nil
decode_quanta-encode (a ∷ []) h =
    ground (arith, decode-symbols (a / 4) (a % 4 * 16) b'=' b'=' [], finish_one a, decode-nil)
decode_quanta-encode (a ∷ b ∷ []) h = ground (
  arith,
  decode-symbols (a / 4) (a % 4 * 16 + b / 16) (symbol (b % 16 * 4)) b'=' [],
  finish_two a b,
  decode-nil,
)
decode_quanta-encode (a ∷ b ∷ c ∷ s) h = ground (
  arith,
  decode-symbols (a / 4) (a % 4 * 16 + b / 16) (symbol (b % 16 * 4 + c / 64)) (symbol (c % 64))
      (encode_to_string s),
  finish_three a b c s (encode_to_string s),
  decode_quanta-encode s,
)

-- Decoding undoes encoding, for every sequence of bytes.
pub decode-encode : (s : Text) → All IsByte s → decode_string (encode_to_string s) ≡ some s
unfolding decode_string
decode-encode s h = rw (skip_line_breaks-encode s) (decode_quanta-encode s h)
