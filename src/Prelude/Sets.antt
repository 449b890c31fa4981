-- ===== src/Prelude/Sets.antt =====
-- Go's `map[K]struct{}` as the list of its keys, each once, in an arbitrary order.
use mathlib.Core.Bool.{Bool, true, false, not, ◌&&◌, ◌||◌}
use mathlib.Core.List.{List, [], ◌∷◌, ◌++◌}
use mathlib.Core.Path.{◌≡◌, refl}
use native.Mathlib.Omega.{arith}
use room_chat.Prelude.Lists.{length}
use room_chat.Prelude.Tests.{Comparable, ◌==◌, if◌then◌else◌, ltb}

module _ {ℓ} {A : Type ℓ} ⦃e : Comparable A⦄ where
  -- _, exists := m[a]
  unfoldable pub contains : List A → A → Bool
  contains [] a = false
  contains (x ∷ xs) a = x == a || contains xs a

  -- m[a] = struct{}{}
  unfoldable pub insert : A → List A → List A
  unfolding contains
  insert a xs = if contains xs a then xs else xs ++ a ∷ []

  -- delete(m, a)
  unfoldable pub erase : A → List A → List A
  erase a [] = []
  erase a (x ∷ xs) = let rest = erase a xs in if x == a then rest else x ∷ rest

  abbrev pub Distinct : List A → Type 0
  Distinct [] = Unit
  Distinct (x ∷ xs) = (contains xs x ≡ false) × Distinct xs

  contains-snoc : (xs : List A) (a b : A) → contains (xs ++ a ∷ []) b ≡ (a == b || contains xs b)
  unfolding contains
  contains-snoc [] a b = refl
  contains-snoc (x ∷ xs) a b = ground (arith, contains-snoc xs a b)

  pub contains-insert :
      (a b : A) (xs : List A) → contains (insert a xs) b ≡ (a == b || contains xs b)
  unfolding insert
  contains-insert a b xs = ground (arith, contains-snoc xs a b, e.equal_iff a b)

  pub contains-erase :
      (a b : A) (xs : List A) → contains (erase a xs) b ≡ (not (a == b) && contains xs b)
  unfolding contains erase
  contains-erase a b [] = ground arith
  contains-erase a b (x ∷ xs) =
      ground (arith, contains-erase a b xs, e.equal_iff a b, e.equal_iff x a, e.equal_iff x b)

  Distinct-snoc :
      (xs : List A) (a : A) → contains xs a ≡ false → Distinct xs → Distinct (xs ++ a ∷ [])
  unfolding contains
  Distinct-snoc [] a h d = ground arith
  Distinct-snoc (x ∷ xs) a h d = (
    ground (arith, contains-snoc xs a x, e.equal_iff a x, e.equal_iff x a),
    Distinct-snoc xs a (ground arith) d.1,
  )

  pub insert-Distinct : (a : A) (xs : List A) → Distinct xs → Distinct (insert a xs)
  unfolding insert
  insert-Distinct a xs d = ground (arith, Distinct-snoc xs a)

  pub erase-Distinct : (a : A) (xs : List A) → Distinct xs → Distinct (erase a xs)
  unfolding erase
  erase-Distinct a [] d = tt
  erase-Distinct a (x ∷ xs) d = ground (arith, erase-Distinct a xs d.1, contains-erase a x xs)

  -- Erasing an absent key changes nothing.
  pub erase_absent : (a : A) (xs : List A) → contains xs a ≡ false → erase a xs ≡ xs
  unfolding contains erase
  erase_absent a [] h = refl
  erase_absent a (x ∷ xs) h = ground (arith, erase_absent a xs)

  -- An entry that is absent everywhere leaves only the empty set.
  pub nil_of_contains : (xs : List A) → ((a : A) → contains xs a ≡ false) → xs ≡ []
  unfolding contains
  nil_of_contains [] h = refl
  nil_of_contains (x ∷ xs) h = ground (arith, h x, e.equal_iff x x)

  -- A set with a member is not empty.
  pub pos_of_contains : (xs : List A) (a : A) → contains xs a ≡ true → ltb 0 (length xs) ≡ true
  unfolding contains
  pos_of_contains [] a h = cc
  pos_of_contains (x ∷ xs) a h = ground arith
