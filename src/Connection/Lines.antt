-- ===== src/Connection/Lines.antt =====
-- What the client reads from the frames of a connection: nothing is lost, doubled or moved.
use room_chat.Prelude.{
  ℕ, ◌≡◌, ◌≢◌, sym, refl, List, [], ◌∷◌, ◌++◌, Text, nat_beq, nat_beq_iff, All, arith, Bool-cases,
  inl, inr, if◌then◌else◌,
}
use mathlib.Core.List.{append_assoc}
use room_chat.Connection.Writing.{Frame, text_frame, ping, close_frame}

abbrev pub onto_first : ℕ → List Text → List Text
onto_first c [] = (c ∷ []) ∷ []
onto_first c (l ∷ ls) = (c ∷ l) ∷ ls

-- The parts of a text between its newlines.
unfoldable pub lines : Text → List Text
lines [] = [] ∷ []
lines (c ∷ cs) = let rest = lines cs in if nat_beq c b'\n' then [] ∷ rest else onto_first c rest

-- The lines of the text frames, in their order.
unfoldable pub frame_lines : List Frame → List Text
frame_lines [] = []
frame_lines (text_frame bytes ∷ fs) = lines bytes ++ frame_lines fs
frame_lines (ping ∷ fs) = frame_lines fs
frame_lines (close_frame ∷ fs) = frame_lines fs

abbrev pub HasNoNewline : Text → Type 0
HasNoNewline t = All (λ c. c ≢ b'\n') t

pub lines-line : (t : Text) → HasNoNewline t → lines t ≡ t ∷ []
unfolding lines
lines-line [] h = refl
lines-line (c ∷ cs) h = ground (arith, lines-line cs h.1, nat_beq_iff c b'\n')

-- There is always a first line.
first_line : (t : Text) → (l : Text) × (ls : List Text) × (lines t ≡ l ∷ ls)
unfolding lines
first_line [] = ([], [], refl)
first_line (c ∷ cs) = elim (Bool-cases (nat_beq c b'\n')) [
  | inl newline ↦ ([], lines cs, rw newline refl)
  | inr other ↦ let (l, ls, e) = first_line cs in (c ∷ l, ls, rw (other, e) refl)
]

pub lines-append : (t rest : Text) → lines (t ++ b'\n' ∷ rest) ≡ lines t ++ lines rest
unfolding lines
lines-append [] rest = refl
lines-append (c ∷ cs) rest = elim (Bool-cases (nat_beq c b'\n')) [
  | inl newline ↦ rw (newline, lines-append cs rest) refl
  | inr other ↦ let (l, ls, e) = first_line cs in rw (other, lines-append cs rest, e) refl
]

pub frame_lines-append :
    (fs gs : List Frame) → frame_lines (fs ++ gs) ≡ frame_lines fs ++ frame_lines gs
unfolding frame_lines
frame_lines-append [] gs = refl
frame_lines-append (text_frame bytes ∷ fs) gs =
    rw (frame_lines-append fs gs)
      (sym (append_assoc (lines bytes) (frame_lines fs) (frame_lines gs)))
frame_lines-append (ping ∷ fs) gs = frame_lines-append fs gs
frame_lines-append (close_frame ∷ fs) gs = frame_lines-append fs gs
