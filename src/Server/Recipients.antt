-- ===== src/Server/Recipients.antt =====
-- The connections that a push goes to: each once, and exactly those of the members who are online.
use room_chat.Prelude.{
  ℕ, ◌≡◌, ◌∙◌, refl, Bool, true, false, List, [], ◌∷◌, ◌++◌, Text, text_beq, text_beq_iff, nat_eq,
  text_eq, nat_beq_iff, ◌&&◌, ◌||◌, arith, Option-cases, inl, inr,
}
use room_chat.Prelude.Sets.{contains, Distinct}
use room_chat.Prelude.Maps.{lookup}
use room_chat.Sending.{recipients}
use room_chat.Store.{Store}
use room_chat.Server.Invariant.{Conns, is_attached, connections_of}

contains-append :
    (ps rs : List ℕ) (q : ℕ) → contains (ps ++ rs) q ≡ (contains ps q || contains rs q)
unfolding contains
contains-append [] rs q = refl
contains-append (p ∷ ps) rs q = ground (arith, contains-append ps rs q)

append-Distinct :
    (ps rs : List ℕ)
    → Distinct ps
    → Distinct rs
    → ((q : ℕ) → contains ps q ≡ true → contains rs q ≡ false)
    → Distinct (ps ++ rs)
unfolding contains
append-Distinct [] rs dp dr apart = dr
append-Distinct (p ∷ ps) rs dp dr apart = (
  contains-append ps rs p ∙ ground (arith, dp.0, apart p, nat_beq_iff p p),
  append-Distinct ps rs dp.1 dr (λ q i. ground (arith, apart q)),
)

attached_among :
    (att : Text → ℕ → Bool) (w u : Text) (b : Bool) (q : ℕ)
    → (att w q ≡ true → u ≡ w)
    → (att w q || (b && att u q)) ≡ ((text_beq w u || b) && att u q)
attached_among att w u b q named = ground (arith, text_beq_iff w u)

module _ (s : Store) (h : Conns s) where
  -- A connection is among the recipients if its user is a member who has logged in on it.
  pub contains-recipients :
      (ws : List Text) (q : ℕ)
      → contains (recipients s.sessions s.user_at ws) q
        ≡ (contains ws (s.client_at q).user && is_attached s (s.client_at q).user q)
  unfolding recipients contains
  contains-recipients [] q = refl
  contains-recipients (w ∷ ws) q =
      contains-append (connections_of s.sessions s.user_at w) (recipients s.sessions s.user_at ws) q
      ∙ rw (contains-recipients ws q) (
          attached_among (is_attached s) w (s.client_at q).user (contains ws (s.client_at q).user) q
            (λ e. (h.attached w q e).1))

  session_connections-Distinct : (w : Text) → Distinct (connections_of s.sessions s.user_at w)
  session_connections-Distinct w = elim (Option-cases (lookup s.sessions w)) [
    | inl e ↦ rw (e, connections_of) tt
    | inr (u, e) ↦ rw (e, connections_of) (h.connections_distinct w u e)
  ]

  pub recipients-Distinct :
      (ws : List Text) → Distinct ws → Distinct (recipients s.sessions s.user_at ws)
  unfolding recipients contains
  recipients-Distinct [] d = tt
  recipients-Distinct (w ∷ ws) d =
      append-Distinct (connections_of s.sessions s.user_at w) (recipients s.sessions s.user_at ws)
        (session_connections-Distinct w) (recipients-Distinct ws d.1)
        (λ q i. contains-recipients ws q ∙ rw (h.attached w q i).1 (rw d.0 refl))
