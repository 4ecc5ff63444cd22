-- ===== src/Signal/Names/Words.antt =====
-- internal/signal/server.go: the words of a name, as `strings.Map` and `strings.Fields` find them.
use relay_tunnel.Prelude.{
  ℕ, ◌≡◌, ◌≢◌, refl, ap, sym, ◌∙◌, true, false, ◌||◌, List, [], ◌∷◌, ◌++◌, arith, if◌then◌else◌,
  AllOf, nat_eq, ℕ_discrete, Bool-cases, ◌⊎◌, inl, inr,
}
use relay_tunnel.Signal.Admin.Password.{push}
use relay_tunnel.Cmd.Update.{drop_empty}
use relay_tunnel.Signal.Names.{is_rune_space, is_control, map_runes, rune_parts}

-- A rune that is no space and no control character.
abbrev pub IsPlain : ℕ → Type 0
IsPlain r = (is_rune_space r ≡ false) × (is_control r ≡ false)

abbrev pub IsWord : List ℕ → Type 0
IsWord w = (w ≢ []) × AllOf IsPlain w

abbrev IsMapped : ℕ → Type 0
IsMapped r = (r ≡ 32) ⊎ IsPlain r

pub map_runes-IsMapped : (name : List ℕ) → AllOf IsMapped (map_runes name)
unfolding map_runes
map_runes-IsMapped [] = tt
map_runes-IsMapped (r ∷ rs) = elim (Bool-cases (is_rune_space r)) [
  | inl e ↦ rw e (inl refl, map_runes-IsMapped rs)
  | inr e ↦ elim (Bool-cases (is_control r)) [
    | inl e' ↦ rw (e, e') (map_runes-IsMapped rs)
    | inr e' ↦ rw (e, e') (inr (e, e'), map_runes-IsMapped rs)
  ]
]

push-AllOf :
    (r : ℕ) (ps : List (List ℕ))
    → IsPlain r
    → AllOf (AllOf IsPlain) ps
    → AllOf (AllOf IsPlain) (push r ps)
push-AllOf r [] h k = ((h, tt), tt)
push-AllOf r (p ∷ ps) h (k, ks) = ((h, k), ks)

pub rune_parts-AllOf :
    (name : List ℕ) → AllOf IsMapped name → AllOf (AllOf IsPlain) (rune_parts name)
unfolding rune_parts
rune_parts-AllOf [] h = (tt, tt)
rune_parts-AllOf (r ∷ rs) (h, hs) = elim (Bool-cases (is_rune_space r)) [
  | inl e ↦ rw e (tt, rune_parts-AllOf rs hs)
  | inr e ↦ rw e (push-AllOf r (rune_parts rs) (plain h e) (rune_parts-AllOf rs hs))
]
  where
    plain : IsMapped r → is_rune_space r ≡ false → IsPlain r
    plain (inl e) n = absurd (ground arith)
    plain (inr p) n = p

pub drop_empty-IsWord :
    (ps : List (List ℕ)) → AllOf (AllOf IsPlain) ps → AllOf IsWord (drop_empty ps)
drop_empty-IsWord [] h = tt
drop_empty-IsWord ([] ∷ ps) (h, hs) = drop_empty-IsWord ps hs
drop_empty-IsWord ((r ∷ rs) ∷ ps) (h, hs) =
    ((λ e. absurd (ground arith), h), drop_empty-IsWord ps hs)

-- The runes of a name that are no space and no control character.
abbrev pub plain_of : List ℕ → List ℕ
plain_of [] = []
plain_of (r ∷ rs) = if is_rune_space r || is_control r then plain_of rs else r ∷ plain_of rs

abbrev pub concat : List (List ℕ) → List ℕ
concat [] = []
concat (w ∷ ws) = w ++ concat ws

pub concat-drop_empty : (ps : List (List ℕ)) → concat (drop_empty ps) ≡ concat ps
concat-drop_empty [] = refl
concat-drop_empty ([] ∷ ps) = concat-drop_empty ps
concat-drop_empty ((r ∷ rs) ∷ ps) = ap (λ l. (r ∷ rs) ++ l) (concat-drop_empty ps)

concat-push : (r : ℕ) (ps : List (List ℕ)) → concat (push r ps) ≡ r ∷ concat ps
concat-push r [] = refl
concat-push r (p ∷ ps) = refl

rune_parts-space :
    (r : ℕ) (rs : List ℕ) → is_rune_space r ≡ true → rune_parts (r ∷ rs) ≡ [] ∷ rune_parts rs
unfolding rune_parts
rune_parts-space r rs e = rw e

rune_parts-other :
    (r : ℕ) (rs : List ℕ) → is_rune_space r ≡ false → rune_parts (r ∷ rs) ≡ push r (rune_parts rs)
unfolding rune_parts
rune_parts-other r rs e = rw e

space_lem : is_rune_space 32 ≡ true
unfolding nat_eq ℕ_discrete
space_lem = refl

concat-nil : concat (rune_parts []) ≡ []
unfolding rune_parts
concat-nil = refl

pub concat-rune_parts : (name : List ℕ) → concat (rune_parts (map_runes name)) ≡ plain_of name
unfolding map_runes
concat-rune_parts [] = concat-nil
concat-rune_parts (r ∷ rs) = elim (Bool-cases (is_rune_space r)) [
  | inl e ↦ rw e (ap concat (rune_parts-space 32 (map_runes rs) space_lem) ∙ concat-rune_parts rs)
  | inr e ↦ elim (Bool-cases (is_control r)) [
    | inl e' ↦ rw (e, e') (concat-rune_parts rs)
    | inr e' ↦
        rw (e, e')
          (ap concat (rune_parts-other r (map_runes rs) e)
            ∙ concat-push r (rune_parts (map_runes rs))
            ∙ ap (λ l. r ∷ l) (concat-rune_parts rs))
  ]
]

-- A part of a name without its control characters.
abbrev pub strip : List ℕ → List ℕ
strip [] = []
strip (r ∷ rs) = if is_control r then strip rs else r ∷ strip rs

abbrev pub strip_all : List (List ℕ) → List (List ℕ)
strip_all [] = []
strip_all (p ∷ ps) = strip p ∷ strip_all ps

-- The words of a name: its parts between spaces, without their control characters, where something is
-- left.
abbrev pub words_of : List ℕ → List (List ℕ)
words_of name = drop_empty (strip_all (rune_parts name))

rune_parts_ne : (name : List ℕ) → rune_parts name ≢ []
unfolding rune_parts
rune_parts_ne [] h = absurd (ground arith)
rune_parts_ne (r ∷ rs) h = elim (Bool-cases (is_rune_space r)) [
  | inl e ↦ absurd (ground arith)
  | inr e ↦ push_ne r (rune_parts rs) (sym (rune_parts-other r rs e) ∙ h)
]
  where
    push_ne : (r : ℕ) (ps : List (List ℕ)) → push r ps ≢ []
    push_ne r [] h = absurd (ground arith)
    push_ne r (p ∷ ps) h = absurd (ground arith)

strip_all-push_control :
    (r : ℕ) (ps : List (List ℕ))
    → is_control r ≡ true
    → ps ≢ []
    → strip_all (push r ps) ≡ strip_all ps
strip_all-push_control r [] c n = absurd (n refl)
strip_all-push_control r (p ∷ ps) c n = rw c refl

strip_all-push :
    (r : ℕ) (ps : List (List ℕ))
    → is_control r ≡ false
    → strip_all (push r ps) ≡ push r (strip_all ps)
strip_all-push r [] c = rw c refl
strip_all-push r (p ∷ ps) c = rw c refl

rune_parts_nil : rune_parts [] ≡ strip_all (rune_parts [])
unfolding rune_parts
rune_parts_nil = refl

pub rune_parts-map_runes :
    (name : List ℕ) → rune_parts (map_runes name) ≡ strip_all (rune_parts name)
unfolding map_runes
rune_parts-map_runes [] = rune_parts_nil
rune_parts-map_runes (r ∷ rs) = elim (Bool-cases (is_rune_space r)) [
  | inl e ↦ rw e (
      rune_parts-space 32 (map_runes rs) space_lem
      ∙ ap (λ l. [] ∷ l) (rune_parts-map_runes rs)
      ∙ sym (ap strip_all (rune_parts-space r rs e)))
  | inr e ↦ elim (Bool-cases (is_control r)) [
    | inl c ↦
        rw (e, c)
          (rune_parts-map_runes rs
            ∙ sym (strip_all-push_control r (rune_parts rs) c (rune_parts_ne rs))
            ∙ sym (ap strip_all (rune_parts-other r rs e)))
    | inr c ↦
        rw (e, c)
          (rune_parts-other r (map_runes rs) e
            ∙ ap (push r) (rune_parts-map_runes rs)
            ∙ sym (strip_all-push r (rune_parts rs) c)
            ∙ sym (ap strip_all (rune_parts-other r rs e)))
  ]
]
