-- ===== src/User.antt =====
-- internal/user/user.go and models.go: a user who is online, with the connections (by address) and
-- the names of the channels joined.
use room_chat.Prelude.{ℕ, Bool, List, [], Text, length, ltb, nat_eq, text_eq}
use room_chat.Prelude.Sets.{insert, erase}

-- Times are seconds; `password` is the hash.
pub record Profile : Type 0 where
  pub id : ℕ
  pub username : Text
  pub nick : Text
  pub password : Text
  pub created_at : ℕ
  pub updated_at : ℕ

pub record User : Type 0 where
  pub profile : Profile
  pub connections : List ℕ
  pub channels : List Text

unfoldable pub new_user : Profile → User
new_user profile = record { profile = profile; connections = []; channels = [] }

abbrev pub username : User → Text
username u = u.profile.username

unfoldable pub add_client : ℕ → User → User
add_client p u = record u { connections = insert p u.connections }

unfoldable pub remove_client : ℕ → User → User
remove_client p u = record u { connections = erase p u.connections }

unfoldable pub add_channel : Text → User → User
add_channel name u = record u { channels = insert name u.channels }

unfoldable pub remove_channel : Text → User → User
remove_channel name u = record u { channels = erase name u.channels }

abbrev pub get_channels : User → List Text
get_channels u = u.channels

abbrev pub has_connections : User → Bool
has_connections u = ltb 0 (length u.connections)
