-- ===== src/Tests/Listing.antt =====
-- The theorems on listing messages at the stores of `Runs`.
use room_chat.Prelude.{◌≡◌, ◌⊎◌, refl, Option, some, true, false, Text, text, [], ◌∷◌, text_eq}
use room_chat.User.{Profile}
use room_chat.Users.{login, ok}
use room_chat.Elastic.Documents.{list_documents}
use room_chat.Store.{done}
use room_chat.Server.Invariant.{is_member}
use room_chat.Http.{Writer, empty_writer, messages_body}
use room_chat.Http.Guards.{handle_list_messages-member}
use room_chat.Http.Routes.{serve_http, get_messages}
use room_chat.Http.Passes.{serve_http-passes}
use room_chat.Grpc.Listings.{BothList, BothRefuse, handle_list_messages-list_messages}
use room_chat.Tests.Fixture.{repository, plain, s3, alice, go}
use room_chat.Tests.Runs.{s1_state, s3_state}
use room_chat.Tests.Grpc.{clock, index, hello, as_alice}

abbrev listing : Writer
listing = record {
  status = some 200;
  challenge = false;
  bodies = messages_body (some (hello ∷ [])) ∷ [];
}

index_lists : list_documents index go [] ≡ some (hello ∷ [])
unfolding list_documents
index_lists = refl

alice_lists :
    serve_http repository plain index 0 tt (get_messages (some (alice, text "pw")) go []) s3
    ≡ done (listing, tt) s3
unfolding serve_http
alice_lists = rw (
  s1_state.4,
  handle_list_messages-member index alice go [] empty_writer s3 refl as_alice refl s3_state.5,
  index_lists,
)

serve_http-passes_example :
    (name : Text) × (password : Text) × (profile : Profile) × (◌≡◌ {A = Option (Text × Text)}
      (some (alice, text "pw"))
      (some (name, password)))
    × (login repository plain name password tt ≡ ok profile)
    × (s3 ≡ s3)
    × (is_member s3 go name ≡ true)
    × (list_documents index go [] ≡ some (hello ∷ []))
serve_http-passes_example =
    serve_http-passes repository plain index 0 tt tt go [] (hello ∷ []) s3 s3 listing
      (some (alice, text "pw")) alice_lists refl

handle_list_messages-list_messages_example :
    BothList clock index as_alice alice go [] s3 refl refl
    ⊎ BothRefuse clock index as_alice alice go [] s3 refl refl
handle_list_messages-list_messages_example =
    handle_list_messages-list_messages clock index as_alice alice go [] s3 refl refl
