-- ===== src/Startup/Endings.antt =====
-- How the start of the program ends.
use room_chat.Prelude.{ℕ, ◌≡◌, ◌↔◌, Bool, true, false, none, List, [], ◌∷◌, text, inr}
use room_chat.Config.{Config, load}
use room_chat.Startup.{
  Libraries, Act, closed_db, started_http, listened, Ending, returns, postgres_config, dsn,
  es_address, open_db,
}

abbrev pub closes : List Act → Bool
closes [] = false
closes (closed_db ∷ acts) = true
closes (_ ∷ acts) = closes acts

-- A port of the HTTP or of the gRPC server is asked for.
abbrev pub opens_port : List Act → Bool
opens_port [] = false
opens_port (started_http a ∷ acts) = true
opens_port (listened a ∷ acts) = true
opens_port (_ ∷ acts) = opens_port acts

abbrev pub status : Ending → ℕ
status returns = 0
status _ = 1

module _ (l : Libraries) where
  -- What the start needs.
  pub record IsUp (cfg : Config) (pool : l.Pool) (client : l.EsClient) : Type 0 where
    pub loaded : load l.read_file l.unmarshal (text "config.json") ≡ inr cfg
    pub opened : l.open_db (dsn (postgres_config cfg.database)) ≡ inr pool
    pub answered : l.ping pool ≡ none
    pub made :
        l.new_client
          (es_address cfg.elasticsearch)
          cfg.elasticsearch.user
          cfg.elasticsearch.password
        ≡ inr client

  -- What ends with status 0 has closed the database, and nothing else has.
  abbrev Agrees : List Act × Ending → Type 0
  Agrees r = (status r.1 ≡ 0) ↔ (closes r.0 ≡ true)
