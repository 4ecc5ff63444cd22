-- ===== src/Sync/Pass/Keeps.antt =====
-- examples/relay-sync/client.go: what a pass keeps when it breaks off.
use mathlib.Core.Path.{ap₂}
use relay_tunnel.Prelude.{
  ℕ, Option, none, some, Bool, true, false, ◌||◌, ◌==◌, List, [], ◌∷◌, map, Bytes, lookup, nat_eq,
  bytes_eq, ◌≡◌, ◌⊎◌, refl, sym, ap, ◌∙◌, inl, inr, arith, AllOf, contains, take, take_whole,
  NodupKeys, lookup-insert, lookup-erase, insert-NodupKeys, erase-NodupKeys, Bool-cases,
  Option-cases, ==→eq,
}
use relay_tunnel.Sync.Files.{File, Tree}
use relay_tunnel.Sync.Plan.{Action, copy, delete}
use relay_tunnel.Sync.Plan.Paths.{path_of}
use relay_tunnel.Sync.Plan.Sound.{IsSound}
use relay_tunnel.Sync.Pass.{Outcome, done, refused, broken, apply, break_off, perform}
use relay_tunnel.Sync.Pass.Mirror.{AllDated, Agrees, lookup-apply}

apply-NodupKeys :
    (src : Tree) (now : ℕ) (a : Action) (dst : Tree)
    → NodupKeys dst
    → NodupKeys (apply src now a dst)
unfolding apply
apply-NodupKeys src now (copy p) dst v = elim (Option-cases (lookup p src)) [
  | inl e ↦ rw e v
  | inr (f, e) ↦ rw e (insert-NodupKeys p _ dst v)
]
apply-NodupKeys src now (delete p) dst v = erase-NodupKeys p dst v

break_off-NodupKeys :
    (src : Tree) (n time : ℕ) (a : Action) (dst : Tree)
    → NodupKeys dst
    → NodupKeys (break_off src n time a dst)
unfolding break_off
break_off-NodupKeys src n time (copy p) dst v = elim (Option-cases (lookup p src)) [
  | inl e ↦ rw e v
  | inr (f, e) ↦ rw e (insert-NodupKeys p _ dst v)
]
break_off-NodupKeys src n time (delete p) dst v = erase-NodupKeys p dst v

pub perform-NodupKeys :
    (src : Tree) (actions : List Action) (os : List Outcome) (dst : Tree)
    → NodupKeys dst
    → NodupKeys (perform src actions os dst).0
unfolding perform
perform-NodupKeys src [] os dst v = v
perform-NodupKeys src (a ∷ more) [] dst v = v
perform-NodupKeys src (a ∷ more) (done now ∷ os) dst v =
    perform-NodupKeys src more os (apply src now a dst) (apply-NodupKeys src now a dst v)
perform-NodupKeys src (a ∷ more) (refused ∷ os) dst v = v
perform-NodupKeys src (a ∷ more) (broken n time ∷ os) dst v = break_off-NodupKeys src n time a dst v

break_off_elsewhere :
    (src : Tree) (n time : ℕ) (a : Action) (dst : Tree) (q : Bytes)
    → (q == path_of a) ≡ false
    → lookup q (break_off src n time a dst) ≡ lookup q dst
unfolding break_off
break_off_elsewhere src n time (copy p) dst q y = elim (Option-cases (lookup p src)) [
  | inl e ↦ rw e refl
  | inr (f, e) ↦
      rw (e, lookup-insert q p (record { content = take n f.content; mtime = time }) dst, y) refl
]
break_off_elsewhere src n time (delete p) dst q y = rw (lookup-erase q p dst, y) refl

-- A part of a file that is as long as the file is the file.
part-Agrees :
    (n time : ℕ) (f : File)
    → Agrees (some f) (some (record { content = take n f.content; mtime = time }))
part-Agrees n time f l t =
    ap₂ (λ c m. record { content = c; mtime = m }) (take_whole n f.content l) t

pub Agrees-none : (o : Option File) → Agrees o none
Agrees-none none = tt
Agrees-none (some f) = tt

break_off-Agrees :
    (src : Tree) (n time : ℕ) (a : Action) (dst : Tree) (q : Bytes)
    → Agrees (lookup q src) (lookup q dst)
    → Agrees (lookup q src) (lookup q (break_off src n time a dst))
unfolding break_off
break_off-Agrees src n time (copy p) dst q k = elim (Option-cases (lookup p src)) [
  | inl e ↦ rw e k
  | inr (f, e) ↦ elim (Bool-cases (q == p)) [
    | inl y ↦
        rw
          (
            e,
            lookup-insert q p (record { content = take n f.content; mtime = time }) dst,
            y,
            ==→eq q p y,
            e,
          )
          (part-Agrees n time f)
    | inr y ↦
        rw (e, lookup-insert q p (record { content = take n f.content; mtime = time }) dst, y) k
  ]
]
break_off-Agrees src n time (delete p) dst q k = elim (Bool-cases (q == p)) [
  | inl y ↦ rw (lookup-erase q p dst, y) (Agrees-none (lookup q src))
  | inr y ↦ rw (lookup-erase q p dst, y) k
]

Agrees-same : (o : Option File) → Agrees o o
Agrees-same none = tt
Agrees-same (some f) = λ l t. refl

or_left : (b c : Bool) → (b || c) ≡ false → b ≡ false
or_left true c h = h
or_left false c h = refl

or_right : (b c : Bool) → (b || c) ≡ false → c ≡ false
or_right true c h = absurd (ground arith)
or_right false c h = h

module _ (src : Tree) (dated : AllDated src) where
  apply-Agrees :
      (now : ℕ) (a : Action) (dst : Tree) (q : Bytes)
      → IsSound src a
      → Agrees (lookup q src) (lookup q dst)
      → Agrees (lookup q src) (lookup q (apply src now a dst))
  apply-Agrees now a dst q s k = elim (Bool-cases (q == path_of a)) [
    | inl y ↦ rw (lookup-apply src dated now a dst q s, y) (Agrees-same (lookup q src))
    | inr y ↦ rw (lookup-apply src dated now a dst q s, y) k
  ]

  pub perform-Agrees :
      (actions : List Action) (os : List Outcome) (dst : Tree) (q : Bytes)
      → AllOf (IsSound src) actions
      → Agrees (lookup q src) (lookup q dst)
      → Agrees (lookup q src) (lookup q (perform src actions os dst).0)
  unfolding perform
  perform-Agrees [] os dst q s k = k
  perform-Agrees (a ∷ more) [] dst q s k = k
  perform-Agrees (a ∷ more) (done now ∷ os) dst q (s, ss) k =
      perform-Agrees more os (apply src now a dst) q ss (apply-Agrees now a dst q s k)
  perform-Agrees (a ∷ more) (refused ∷ os) dst q s k = k
  perform-Agrees (a ∷ more) (broken n time ∷ os) dst q s k = break_off-Agrees src n time a dst q k

  pub perform_elsewhere :
      (actions : List Action) (os : List Outcome) (dst : Tree) (q : Bytes)
      → AllOf (IsSound src) actions
      → contains (map path_of actions) q ≡ false
      → lookup q (perform src actions os dst).0 ≡ lookup q dst
  unfolding perform
  perform_elsewhere [] os dst q s k = refl
  perform_elsewhere (a ∷ more) [] dst q s k = refl
  perform_elsewhere (a ∷ more) (done now ∷ os) dst q (s, ss) k =
      let other = or_left (q == path_of a) (contains (map path_of more) q) k in
      let later = or_right (q == path_of a) (contains (map path_of more) q) k in
      rw
        (
          perform_elsewhere more os (apply src now a dst) q ss later,
          lookup-apply src dated now a dst q s,
          other,
        )
        refl
  perform_elsewhere (a ∷ more) (refused ∷ os) dst q s k = refl
  perform_elsewhere (a ∷ more) (broken n time ∷ os) dst q s k =
      break_off_elsewhere src n time a dst q
        (or_left (q == path_of a) (contains (map path_of more) q) k)

  break_off_deleted :
      (n time : ℕ) (p q : Bytes) (dst : Tree)
      → (q == p) ≡ true
      → lookup q (break_off src n time (delete p) dst) ≡ none
  unfolding break_off
  break_off_deleted n time p q dst y = rw (lookup-erase q p dst, y) refl

  break_off_absent :
      (n time : ℕ) (a : Action) (dst : Tree) (q : Bytes)
      → IsSound src a
      → lookup q src ≡ none
      → (lookup q (break_off src n time a dst) ≡ lookup q dst)
        ⊎ (lookup q (break_off src n time a dst) ≡ none)
  break_off_absent n time (copy p) dst q (f, e) absent = elim (Bool-cases (q == p)) [
    | inl y ↦
        let found = sym (ap (λ x. lookup x src) (==→eq q p y)) ∙ absent in
        absurd (ground (arith, e, found))
    | inr y ↦ inl (break_off_elsewhere src n time (copy p) dst q y)
  ]
  break_off_absent n time (delete p) dst q s absent = elim (Bool-cases (q == p)) [
    | inl y ↦ inr (break_off_deleted n time p q dst y)
    | inr y ↦ inl (break_off_elsewhere src n time (delete p) dst q y)
  ]

  -- What the source does not have stays as it was at the destination, or goes.
  pub perform_absent :
      (actions : List Action) (os : List Outcome) (dst : Tree) (q : Bytes)
      → AllOf (IsSound src) actions
      → lookup q src ≡ none
      → (lookup q (perform src actions os dst).0 ≡ lookup q dst)
        ⊎ (lookup q (perform src actions os dst).0 ≡ none)
  unfolding perform
  perform_absent [] os dst q s absent = inl refl
  perform_absent (a ∷ more) [] dst q s absent = inl refl
  perform_absent (a ∷ more) (done now ∷ os) dst q (s, ss) absent =
      elim (perform_absent more os (apply src now a dst) q ss absent) [
        | inr e ↦ inr e
        | inl e ↦ elim (Bool-cases (q == path_of a)) [
          | inl y ↦ inr (e ∙ rw (lookup-apply src dated now a dst q s, y) absent)
          | inr y ↦ inl (e ∙ rw (lookup-apply src dated now a dst q s, y) refl)
        ]
      ]
  perform_absent (a ∷ more) (refused ∷ os) dst q s absent = inl refl
  perform_absent (a ∷ more) (broken n time ∷ os) dst q (s, ss) absent =
      break_off_absent n time a dst q s absent
