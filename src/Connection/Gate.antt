-- ===== src/Connection/Gate.antt =====
-- What reaches the server from a connection.
use room_chat.Prelude.{
  ℕ, ◌≡◌, ◌⊎◌, refl, Bool, true, false, not, ◌&&◌, Option, none, Text, inl, inr, arith, Bool-cases,
  Option-cases,
}
use room_chat.Protocol.{Message, MessageAction, is_login}
use room_chat.Connection.{Client, dispatch, read_message, stamp, check}

is_login_lem : (a : MessageAction) → is_login a ≡ true → a ≡ MessageAction.login
unfolding is_login
is_login_lem MessageAction.login e = refl
is_login_lem _ e = cc

gate :
    (a : MessageAction) (authenticated : Bool)
    → (not (is_login a) && not authenticated) ≡ false
    → (a ≡ MessageAction.login) ⊎ (authenticated ≡ true)
gate a true e = inr refl
gate a false e = inl (is_login_lem a (ground (arith, e)))

module _ {Frame : Type 0} (unmarshal : Frame → Text ⊎ Message) (validate : Message → Option Text)
    (c : Client) (uuid : Text) (now : ℕ) where
  check-dispatch :
      (x m : Message)
      → check unmarshal validate c uuid now x ≡ dispatch m
      → (m ≡ stamp unmarshal validate c uuid now x)
        × (validate x ≡ none)
        × ((x.action ≡ MessageAction.login) ⊎ (c.authenticated ≡ true))
  unfolding check
  check-dispatch x m e = elim (Bool-cases (not (is_login x.action) && not c.authenticated)) [
    | inl anonymous ↦ absurd (ground (arith, anonymous))
    | inr allowed ↦ elim (Option-cases (validate x)) [
      | inl valid ↦ (ground arith, valid, gate x.action c.authenticated allowed)
      | inr (text, bad) ↦ absurd (ground arith)
    ]
  ]

  parsed :
      (r : Text ⊎ Message) (m : Message) (frame : Frame)
      → unmarshal frame ≡ r
      → read_message unmarshal validate c uuid now frame ≡ dispatch m
      → (x : Message) × (unmarshal frame ≡ inr x)
        × (validate x ≡ none)
        × (m ≡ record x { user = c.user; client_id = c.conn_id; id = uuid; created_at = now })
        × ((m.action ≡ MessageAction.login) ⊎ (c.authenticated ≡ true))
  unfolding read_message check stamp
  parsed (inl e) m frame eq run = absurd (ground (arith, eq))
  parsed (inr x) m frame eq run =
      let (same, valid, allowed) = check-dispatch x m (ground (arith, eq)) in
      (x, eq, valid, same, rw same allowed)

  -- What a frame makes reach the server was accepted by the parser and the validator, bears the
  -- user and the identifier of the connection whatever the frame said, and is a login unless the
  -- connection is logged in; the rest of it is as the frame said.
  pub read_message-dispatch :
      (frame : Frame) (m : Message)
      → read_message unmarshal validate c uuid now frame ≡ dispatch m
      → (x : Message) × (unmarshal frame ≡ inr x)
        × (validate x ≡ none)
        × (m ≡ record x { user = c.user; client_id = c.conn_id; id = uuid; created_at = now })
        × ((m.action ≡ MessageAction.login) ⊎ (c.authenticated ≡ true))
  unfolding read_message
  read_message-dispatch frame m e = parsed (unmarshal frame) m frame refl e
