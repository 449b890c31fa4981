-- ===== src/Config/Secrets.antt =====
-- Where a secret comes from.
use room_chat.Prelude.{
  ◌≡◌, ◌↔◌, ◌⊎◌, inl, inr, refl, ap, true, false, Option, none, some, [], ◌∷◌, ◌++◌, Text, drop,
  length, nat_beq_iff, Bool-cases, arith,
}
use room_chat.Config.{has_prefix, env_prefix, of_env, of_key, unmarshal_secret}

has_prefix-append : (s p : Text) → has_prefix s p ≡ true → s ≡ p ++ drop (length p) s
has_prefix-append s [] e = refl
has_prefix-append [] (p ∷ ps) e = absurd cc
has_prefix-append (c ∷ s) (p ∷ ps) e = ground (arith, has_prefix-append s ps, nat_beq_iff c p)

abbrev pub Names : (Text → Option Text) → Text → Text → Type 0
Names lookup_env key value =
    ((has_prefix key env_prefix ≡ false) × (key ≡ value))
    ⊎ ((env : Text) × (key ≡ env_prefix ++ env) × (lookup_env env ≡ some value))

of_env-some :
    (env : Text) (o : Option Text) (value : Text) → of_env env o ≡ inr value → o ≡ some value
of_env-some env none value e = cc
of_env-some env (some v) value e = cc

module _ (lookup_env : Text → Option Text) (value : Text) where
  plain_key : (key : Text) → ◌≡◌ {A = Text ⊎ Text} (inr key) (inr value) → key ≡ value
  plain_key key e = cc

  of_key-Names : (key : Text) → of_key lookup_env (inr key) ≡ inr value → Names lookup_env key value
  of_key-Names key e = elim (Bool-cases (has_prefix key env_prefix)) [
    | inl named ↦ inr (
      drop (length env_prefix) key,
      has_prefix-append key env_prefix named,
      of_env-some _ _ value (rw named at e),
    )
    | inr plain ↦ inl (plain, plain_key key (rw plain at e))
  ]

  Names-of_key : (key : Text) → Names lookup_env key value → of_key lookup_env (inr key) ≡ inr value
  Names-of_key key (inl (plain, same)) = rw plain (ap (λ k. inr k) same)
  Names-of_key key (inr (env, same, found)) = rw (same, found)

  decoded-Names :
      (r : Text ⊎ Text)
      → of_key lookup_env r ≡ inr value
      → (key : Text) × (r ≡ inr key) × Names lookup_env key value
  decoded-Names (inl x) e = absurd cc
  decoded-Names (inr key) e = (key, refl, of_key-Names key e)

-- A secret has a value exactly if json.Unmarshal gives a key without an error, and the key does not
-- start with the prefix and is the value, or is the prefix before the name of a variable of the
-- environment that is set to the value. Else there is an error. A JSON null is an empty key.
pub unmarshal_secret-Names :
    {Data : Type 0} (unmarshal : Data → Text ⊎ Text) (lookup_env : Text → Option Text)
    (data_bytes : Data) (value : Text)
    → (unmarshal_secret unmarshal lookup_env data_bytes ≡ inr value)
      ↔ ((key : Text) × (unmarshal data_bytes ≡ inr key) × Names lookup_env key value)
unfolding unmarshal_secret
unmarshal_secret-Names unmarshal lookup_env data_bytes value = (
  decoded-Names lookup_env value (unmarshal data_bytes),
  λ (key, decoded, names). rw decoded (Names-of_key lookup_env value key names),
)
