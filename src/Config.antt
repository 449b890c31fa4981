-- ===== src/Config.antt =====
-- internal/config/config.go: the configuration, its secrets, the level of the log and the origins;
-- createOriginChecker of internal/server/server.go. The file, the environment and the JSON decoder
-- are parameters.
pub mod Secrets
use room_chat.Prelude.{
  ℕ, ◌+◌, Bool, true, false, ◌&&◌, leb, nat_beq, Option, none, some, List, [], ◌∷◌, ◌++◌, Text,
  text, text_beq, text_eq, length, drop, if◌then◌else◌, ◌⊎◌, inl, inr,
}
use room_chat.Prelude.Sets.{contains}

-- strings.HasPrefix(s, prefix)
abbrev pub has_prefix : Text → Text → Bool
has_prefix s [] = true
has_prefix [] (p ∷ ps) = false
has_prefix (c ∷ s) (p ∷ ps) = nat_beq c p && has_prefix s ps

-- strings.TrimPrefix(s, prefix)
abbrev pub trim_prefix : Text → Text → Text
trim_prefix s prefix = if has_prefix s prefix then drop (length prefix) s else s

abbrev pub env_prefix : Text
env_prefix = text "#env:"

-- The left side has the text of an error.
abbrev pub of_env : Text → Option Text → Text ⊎ Text
of_env env none = inl (text "env var " ++ env ++ text " doesn't exist")
of_env env (some value) = inr value

abbrev pub of_key : (Text → Option Text) → Text ⊎ Text → Text ⊎ Text
of_key lookup_env (inl e) = inl e
of_key lookup_env (inr key) =
    if has_prefix key env_prefix
    then of_env (trim_prefix key env_prefix) (lookup_env (trim_prefix key env_prefix))
    else inr key

-- UnmarshalJSON of Secret; `unmarshal` is json.Unmarshal into a string that is empty: its error, or
-- the string after it, which is still empty where the JSON is null.
unfoldable pub unmarshal_secret :
    {Data : Type 0} → (Data → Text ⊎ Text) → (Text → Option Text) → Data → Text ⊎ Text
unmarshal_secret unmarshal lookup_env data_bytes = of_key lookup_env (unmarshal data_bytes)

pub record ServerConfig : Type 0 where
  pub port : ℕ
  pub allowed_origins : List Text

pub record DatabaseConfig : Type 0 where
  pub host : Text
  pub port : ℕ
  pub user : Text
  pub password : Text
  pub db_name : Text
  pub ssl_mode : Text

pub record GrpcConfig : Type 0 where
  pub host : Text
  pub port : ℕ

pub record ElasticsearchConfig : Type 0 where
  pub host : Text
  pub port : ℕ
  pub index : Text
  pub user : Text
  pub password : Text

pub record LoggingConfig : Type 0 where
  pub level : Text

pub record Config : Type 0 where
  pub server : ServerConfig
  pub logging : LoggingConfig
  pub database : DatabaseConfig
  pub grpc : GrpcConfig
  pub elasticsearch : ElasticsearchConfig

abbrev pub load_data : {Data : Type 0} → (Data → Text ⊎ Config) → Text ⊎ Data → Text ⊎ Config
load_data unmarshal (inl e) = inl e
load_data unmarshal (inr data_bytes) = unmarshal data_bytes

unfoldable pub load :
    {Data : Type 0} → (Text → Text ⊎ Data) → (Data → Text ⊎ Config) → Text → Text ⊎ Config
load read_file unmarshal file_path = load_data unmarshal (read_file file_path)

pub data Level : Type 0 where
  level_debug level_info level_warn level_error : Level

abbrev pub lower : ℕ → ℕ
lower c = if leb b'A' c && leb c b'Z' then c + 32 else c

-- strings.ToLower as far as a comparison with an ASCII text can tell: besides the ASCII letters,
-- the dotted I (bytes 196, 176) and the Kelvin sign (bytes 226, 132, 170) become ASCII letters.
unfoldable pub to_lower : Text → Text
to_lower [] = []
to_lower (c ∷ []) = lower c ∷ []
to_lower (c ∷ d ∷ s) =
    let rest = to_lower (d ∷ s) in
    if nat_beq c 196 && nat_beq d 176
    then b'i' ∷ drop 1 rest
    else if nat_beq c 226 && has_prefix (d ∷ s) (132 ∷ 170 ∷ [])
    then b'k' ∷ drop 2 rest
    else lower c ∷ rest

abbrev pub level_of : Text → Level
level_of l =
    if text_beq l (text "debug")
    then level_debug
    else if text_beq l (text "info")
    then level_info
    else if text_beq l (text "warning")
    then level_warn
    else if text_beq l (text "error")
    then level_error
    else level_info

unfoldable pub get_slog_level : LoggingConfig → Level
unfolding to_lower
get_slog_level c = level_of (to_lower c.level)

unfoldable pub is_origin_allowed : ServerConfig → Text → Bool
is_origin_allowed c origin = contains c.allowed_origins origin

-- `origin` is the request's header, empty if there is none.
unfoldable pub create_origin_checker : Config → Text → Bool
unfolding is_origin_allowed
create_origin_checker cfg origin = is_origin_allowed cfg.server origin
