-- ===== src/Signal/Names/Clean.antt =====
-- internal/signal/server.go: what `sanitizeName` leaves of a name.
use relay_tunnel.Prelude.{
  ℕ, ◌≤◌, ◌<◌, zero, suc, ◌≡◌, refl, ap, sym, subst, ◌∙◌, List, [], ◌∷◌, ◌++◌, length, arith, ltb,
  AllOf, nat_eq, Bool-cases, inl, inr, append_assoc, append-nil,
}
use relay_tunnel.Cmd.Update.{drop_empty}
use relay_tunnel.Signal.Names.{
  max_name_len, utf8, map_runes, rune_parts, join_words, drop_last, cut_runes, sanitized,
  sanitize_name,
}
use relay_tunnel.Signal.Names.Words.{
  IsWord, map_runes-IsMapped, rune_parts-AllOf, drop_empty-IsWord, plain_of, concat, words_of,
  concat-drop_empty, concat-rune_parts, rune_parts-map_runes,
}

-- The runes that were kept have at most `max_name_len` bytes, and with the next one they had more.
abbrev pub IsCut : List ℕ → List ℕ → Type 0
IsCut kept [] = length (utf8 kept) ≤ max_name_len
IsCut kept (r ∷ rest) =
    (length (utf8 kept) ≤ max_name_len) × (max_name_len < length (utf8 (kept ++ (r ∷ []))))

abbrev last_of : List ℕ → ℕ
last_of [] = 0
last_of (r ∷ []) = r
last_of (r ∷ s ∷ rs) = last_of (s ∷ rs)

length-drop_last : (n : ℕ) (name : List ℕ) → length name ≤ suc n → length (drop_last name) ≤ n
length-drop_last n [] h = omega arith
length-drop_last n (r ∷ []) h = omega arith
length-drop_last zero (r ∷ s ∷ rs) h = absurd (omega arith)
length-drop_last (suc n) (r ∷ s ∷ rs) h = omega (arith, length-drop_last n (s ∷ rs) (omega arith))

drop_last-append : (r : ℕ) (rs : List ℕ) → r ∷ rs ≡ drop_last (r ∷ rs) ++ (last_of (r ∷ rs) ∷ [])
drop_last-append r [] = refl
drop_last-append r (s ∷ rs) = ap (λ l. r ∷ l) (drop_last-append s rs)

IsCut-extend :
    (kept rest : List ℕ) (l : ℕ)
    → IsCut kept rest
    → max_name_len < length (utf8 ((kept ++ rest) ++ (l ∷ [])))
    → IsCut kept (rest ++ (l ∷ []))
IsCut-extend kept [] l h m =
    (h, subst (λ k. max_name_len < length (utf8 (k ++ (l ∷ [])))) (append-nil kept) m)
IsCut-extend kept (r ∷ rest) l h m = h

cut_runes-IsCut :
    (n : ℕ) (name : List ℕ)
    → length name ≤ n
    → (rest : List ℕ) × (name ≡ cut_runes n name ++ rest) × IsCut (cut_runes n name) rest
unfolding cut_runes utf8
cut_runes-IsCut zero [] h = ([], refl, omega arith)
cut_runes-IsCut zero (r ∷ rs) h = absurd (omega arith)
cut_runes-IsCut (suc n) [] h = ([], refl, omega arith)
cut_runes-IsCut (suc n) (r ∷ rs) h = elim (Bool-cases (ltb max_name_len (length (utf8 (r ∷ rs))))) [
  | inl e ↦
      let (rest, whole, cut) =
        cut_runes-IsCut n (drop_last (r ∷ rs)) (length-drop_last n (r ∷ rs) h) in
      let l = last_of (r ∷ rs) in
      let kept = cut_runes n (drop_last (r ∷ rs)) in
      let split = drop_last-append r rs ∙ ap (λ k. k ++ (l ∷ [])) whole in
      rw e (
        rest ++ (l ∷ []),
        split ∙ append_assoc kept rest (l ∷ []),
        IsCut-extend kept rest l cut
            (subst (λ k. max_name_len < length (utf8 k)) split (ground arith)),
      )
  | inr e ↦ rw e ([], sym (append-nil (r ∷ rs)), ground arith)
]

-- What `sanitizeName` keeps of a name, whatever the name, is the beginning of the words of the name,
-- joined by single spaces. The words are the parts of the name between its spaces, in their order,
-- each without its control characters and only where something is left: none is empty or has a space
-- or a control character, and together they are the other runes of the name. The beginning has at
-- most 64 bytes, ends between two runes, and would have more than 64 with the next one.
pub sanitize_name_lem :
    (name : List ℕ)
    → (words : List (List ℕ)) × (kept rest : List ℕ) × AllOf IsWord words
      × (words ≡ words_of name)
      × (concat words ≡ plain_of name)
      × (join_words words ≡ kept ++ rest)
      × (sanitize_name name ≡ utf8 kept)
      × IsCut kept rest
unfolding sanitize_name sanitized
sanitize_name_lem name =
    let words = drop_empty (rune_parts (map_runes name)) in
    let joined = join_words words in
    let (rest, whole, cut) = cut_runes-IsCut (length joined) joined (omega arith) in
    (
      words,
      cut_runes (length joined) joined,
      rest,
      drop_empty-IsWord (rune_parts (map_runes name))
          (rune_parts-AllOf (map_runes name) (map_runes-IsMapped name)),
      ap drop_empty (rune_parts-map_runes name),
      concat-drop_empty (rune_parts (map_runes name)) ∙ concat-rune_parts name,
      whole,
      refl,
      cut,
    )
