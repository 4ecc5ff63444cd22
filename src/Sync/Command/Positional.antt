-- ===== src/Sync/Command/Positional.antt =====
-- examples/relay-sync/main.go: `parsePositional`. `parse` is `fs.Parse` and then `fs.Args()`: the
-- arguments from the first that is no flag on.
use relay_tunnel.Prelude.{
  ℕ, zero, suc, ◌≤◌, ◌<◌, ◌≡◌, Option, none, some, List, [], ◌∷◌, Bytes, length, arith, ap, subst,
  List-cases, inl, inr,
}

abbrev put_first : Bytes → Option (List Bytes) → Option (List Bytes)
put_first a none = none
put_first a (some pos) = some (a ∷ pos)

module _ (parse : List Bytes → List Bytes) where
  -- The loop, with fuel; none is that it runs out.
  unfoldable pub positional_rounds : ℕ → List Bytes → Option (List Bytes)
  positional_rounds zero args = none
  positional_rounds (suc n) args = elim (parse args) [
    | [] ↦ some []
    | a ∷ rest ↦ put_first a (positional_rounds n rest)
  ]

  unfoldable pub parse_positional : List Bytes → Option (List Bytes)
  unfolding positional_rounds
  parse_positional args = positional_rounds (suc (length args)) args

  put_first_ends :
      (a : Bytes) (o : Option (List Bytes))
      → ((pos : List Bytes) × (o ≡ some pos))
      → (pos : List Bytes) × (put_first a o ≡ some pos)
  put_first_ends a o (pos, e) = (a ∷ pos, ap (put_first a) e)

  positional_rounds_end :
      (n : ℕ) (args : List Bytes)
      → ((more : List Bytes) → length (parse more) ≤ length more)
      → length args < n
      → (pos : List Bytes) × (positional_rounds n args ≡ some pos)
  unfolding positional_rounds
  positional_rounds_end zero args shrinks h = absurd (omega arith)
  positional_rounds_end (suc n) args shrinks h = elim (List-cases (parse args)) [
    | inl e ↦ ([], rw (positional_rounds, e))
    | inr (a, rest, e) ↦
        let fewer : length (a ∷ rest) ≤ length args =
          subst (λ l. length l ≤ length args) e (shrinks args) in
        let (pos, found) =
          put_first_ends a (positional_rounds n rest)
            (positional_rounds_end n rest shrinks (omega (arith, fewer, h))) in
        (pos, rw (positional_rounds, e) found)
  ]

  -- If parsing never gives more arguments than it was given, the positional arguments are found.
  pub parse_positional_ends :
      (args : List Bytes)
      → ((more : List Bytes) → length (parse more) ≤ length more)
      → (pos : List Bytes) × (parse_positional args ≡ some pos)
  unfolding parse_positional
  parse_positional_ends args shrinks =
      positional_rounds_end (suc (length args)) args shrinks (omega arith)
