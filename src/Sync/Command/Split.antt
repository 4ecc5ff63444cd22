-- ===== src/Sync/Command/Split.antt =====
-- examples/relay-sync/main.go: which argument `splitCommand` takes for the command.
use mathlib.Core.Bool.{and-true}
use relay_tunnel.Prelude.{
  Bool, true, false, not, ◌&&◌, ◌==◌, List, [], ◌∷◌, ◌++◌, Bytes, codes, contains, nat_eq, bytes_eq,
  ◌≡◌, ◌≢◌, ◌↔◌, inl, inr, refl, ap, subst, ◌∙◌, arith, Bool-cases, ==-ne, ne→==, ==-self,
}
use relay_tunnel.App.Host.{has_prefix}
use relay_tunnel.Sync.Command.{
  commands, takes_value, is_empty, scan_args, no_command, unknown_command, not_found, found,
  split_command,
}

-- Arguments before the command: each is the value of the one before, or it is not a command.
abbrev pub Passed : Bool → List Bytes → Type 0
Passed true [] = ⊥
Passed false [] = Unit
Passed true (a ∷ pre) = Passed false pre
Passed false (a ∷ pre) = (contains commands a ≡ false) × Passed (takes_value a) pre

-- Once the command is there, every argument is kept.
scan_found :
    (command : Bytes) (skip_value : Bool) (args : List Bytes)
    → (command == []) ≡ false
    → scan_args command skip_value args ≡ (command, args)
unfolding scan_args
scan_found command skip_value [] h = refl
scan_found command true (a ∷ args) h = rw (scan_found command false args h) refl
scan_found command false (a ∷ args) h =
    rw (h, scan_found command (takes_value a && not (is_empty args)) args h) refl

command_nonempty : (c : Bytes) → contains commands c ≡ true → (c == []) ≡ false
command_nonempty [] h = absurd (ground arith)
command_nonempty (x ∷ c) h = ne→== (x ∷ c) [] (λ e. ground arith)

nonempty-append :
    (pre : List Bytes) (c : Bytes) (post : List Bytes) → is_empty (pre ++ (c ∷ post)) ≡ false
nonempty-append [] c post = refl
nonempty-append (a ∷ pre) c post = refl

no_bytes : (◌==◌ {A = Bytes} [] []) ≡ true
no_bytes = ==-self {A = Bytes} []

scan-Passed :
    (skip_value : Bool) (pre : List Bytes) (c : Bytes) (post : List Bytes)
    → contains commands c ≡ true
    → Passed skip_value pre
    → scan_args [] skip_value (pre ++ (c ∷ post)) ≡ (c, pre ++ post)
unfolding scan_args
scan-Passed true [] c post k p = absurd p
scan-Passed false [] c post k p =
    rw (no_bytes, k, scan_found c false post (command_nonempty c k)) refl
scan-Passed true (a ∷ pre) c post k p = rw (scan-Passed false pre c post k p) refl
scan-Passed false (a ∷ pre) c post k (n, p) =
    rw
      (
        no_bytes,
        n,
        nonempty-append pre c post,
        and-true (takes_value a),
        scan-Passed (takes_value a) pre c post k p,
      )
      refl

-- What the loop finds, and which arguments it passes on the way.
abbrev Taken : Bool → List Bytes → Bytes → List Bytes → Type 0
Taken skip_value args c rest =
    (pre : List Bytes) × (post : List Bytes) × (args ≡ pre ++ (c ∷ post))
    × (rest ≡ pre ++ post)
    × (contains commands c ≡ true)
    × Passed skip_value pre

after_value :
    (a : Bytes) (args : List Bytes) (c : Bytes) (rest : List Bytes)
    → Taken false args c rest
    → Taken true (a ∷ args) c (a ∷ rest)
after_value a args c rest (pre, post, e, r, k, p) =
    (a ∷ pre, post, ap (λ l. a ∷ l) e, ap (λ l. a ∷ l) r, k, p)

after_other :
    (a : Bytes) (args : List Bytes) (c : Bytes) (rest : List Bytes)
    → contains commands a ≡ false
    → Taken (takes_value a) args c rest
    → Taken false (a ∷ args) c (a ∷ rest)
after_other a args c rest n (pre, post, e, r, k, p) =
    (a ∷ pre, post, ap (λ l. a ∷ l) e, ap (λ l. a ∷ l) r, k, (n, p))

-- A value follows only if there is a next argument, which there is before a command.
before_more :
    (b : Bool) (args : List Bytes) (c : Bytes) (rest : List Bytes)
    → Taken (b && not (is_empty args)) args c rest
    → Taken b args c rest
before_more b args c rest (pre, post, e, r, k, p) =
    let more = ap is_empty e ∙ nonempty-append pre c post in
    (pre, post, e, r, k, subst (λ x. Passed x pre) (ap (λ x. b && not x) more ∙ and-true b) p)

scan-Taken :
    (skip_value : Bool) (args : List Bytes)
    → ((scan_args [] skip_value args).0 == []) ≡ false
    → Taken skip_value args (scan_args [] skip_value args).0 (scan_args [] skip_value args).1
unfolding scan_args
scan-Taken skip_value [] h = absurd (==-ne {A = Bytes} [] h refl)
scan-Taken true (a ∷ args) h = after_value a args _ _ (scan-Taken false args h)
scan-Taken false (a ∷ args) h = elim (Bool-cases (contains commands a)) [
  | inl y ↦
      rw (no_bytes, y, scan_found a false args (command_nonempty a y)) ([], args, refl, refl, y, tt)
  | inr y ↦
      rw (no_bytes, y)
        (after_other a args _ _ y (
          before_more (takes_value a) args _ _
            (scan-Taken (takes_value a && not (is_empty args)) args (rw (no_bytes, y) at h))))
]

no_command_ne : (a c : Bytes) (rest : List Bytes) → no_command a ≢ found c rest
no_command_ne a c rest e = absurd (ground arith)

unknown_command_ne : (a c : Bytes) (rest : List Bytes) → unknown_command a ≢ found c rest
unknown_command_ne a c rest e = absurd (ground arith)

not_found_ne : (args : List Bytes) (c : Bytes) (rest : List Bytes) → not_found args ≢ found c rest
not_found_ne [] c rest e = absurd (ground arith)
not_found_ne (a ∷ args) c rest e = elim (Bool-cases (has_prefix a (codes "-"))) [
  | inl y ↦ absurd (no_command_ne a c rest (rw y at e))
  | inr y ↦ absurd (unknown_command_ne a c rest (rw y at e))
]

-- `splitCommand` returns a command and the rest exactly when the rest is the arguments without one
-- that names this command, and every argument before that one is the value of the flag before it, or
-- is not the name of a command.
pub split_command_iff :
    (args : List Bytes) (c : Bytes) (rest : List Bytes)
    → (split_command args ≡ found c rest) ↔ Taken false args c rest
unfolding split_command
split_command_iff args c rest = (
  λ h. elim (Bool-cases ((scan_args [] false args).0 == [])) [
    | inl y ↦ absurd (not_found_ne args c rest (rw y at h))
    | inr y ↦
        let same = rw y at h in
        subst (λ x. Taken false args x rest) (ground arith)
          (subst (λ r. Taken false args (scan_args [] false args).0 r) (ground arith)
            (scan-Taken false args y))
  ],
  λ (pre, post, e, r, k, p).
      rw (e, r, scan-Passed false pre c post k p, command_nonempty c k, split_command) refl,
)
