-- ===== src/Config/Unknown/Exact.antt =====
-- internal/config/config.go: exactly which keys are reported.
use relay_tunnel.Prelude.{
  ◌≡◌, ◌⊎◌, ◌↔◌, inl, inr, refl, ap, sym, subst, ◌∙◌, true, ◌==◌, Option, none, some, List, [],
  ◌++◌, Bytes, contains, arith, bytes_eq, nat_eq, Bool-cases, Option-cases, ==→eq, ==-self,
}
use relay_tunnel.Prelude.Sort.{bytes_leb, contains-sort}
use relay_tunnel.Config.{Json, text, other_value, object, Fields, empty, field, get_field}
use relay_tunnel.Config.Unknown.{
  Schema, leaf, struct_of, Members, member_named, dot, report_key, unknown_in, config_members,
  unknown_keys,
}
use relay_tunnel.Config.Unknown.Paths.{
  KeyPath, key, within_section, dotted, IsUnknown, AreDistinct, contains-append, contains-map,
  contains-map_cases, get_field-head, IsUnknown-tail,
}

-- What a key's value has in it that is unknown, by what the key is declared as.
abbrev below_of : Json → Option Schema → Option (List Bytes)
below_of v none = none
below_of v (some leaf) = some []
below_of (object gs) (some (struct_of ns)) = some (unknown_in gs ns)
below_of (text t) (some (struct_of ns)) = some []
below_of (other_value t) (some (struct_of ns)) = some []

unknown_in-field :
    (k : Bytes) (v : Json) (fs : Fields) (ms : Members)
    → unknown_in (field k v fs) ms
      ≡ report_key k (below_of v (member_named k ms)) ++ unknown_in fs ms
unfolding unknown_in
unknown_in-field k (text t) fs ms = elim (Option-cases (member_named k ms)) [
  | inl e ↦ rw e refl
  | inr (leaf, e) ↦ rw e refl
  | inr (struct_of ns, e) ↦ rw e refl
]
unknown_in-field k (other_value t) fs ms = elim (Option-cases (member_named k ms)) [
  | inl e ↦ rw e refl
  | inr (leaf, e) ↦ rw e refl
  | inr (struct_of ns, e) ↦ rw e refl
]
unknown_in-field k (object gs) fs ms = elim (Option-cases (member_named k ms)) [
  | inl e ↦ rw e refl
  | inr (leaf, e) ↦ rw e refl
  | inr (struct_of ns, e) ↦ rw e refl
]

report_key-cases :
    (d k : Bytes) (o : Option (List Bytes))
    → contains (report_key k o) d ≡ true
    → ((o ≡ none) × (d ≡ k))
      ⊎ ((subs : List Bytes) × (e : Bytes) × (o ≡ some subs)
          × (contains subs e ≡ true)
          × (d ≡ dot k e))
report_key-cases d k none h = inl (refl, ==→eq d k (ground arith))
report_key-cases d k (some subs) h =
    let (e, m, eq) = contains-map_cases k d subs h in inr (subs, e, refl, m, eq)

-- Where the head of an object has something unknown in it, it is a section in a section.
below_of-some :
    (v : Json) (o : Option Schema) (subs : List Bytes) (e : Bytes)
    → below_of v o ≡ some subs
    → contains subs e ≡ true
    → (gs : Fields) × (ns : Members) × (v ≡ object gs)
      × (o ≡ some (struct_of ns))
      × (contains (unknown_in gs ns) e ≡ true)
below_of-some v none subs e b m = absurd (ground arith)
below_of-some v (some leaf) subs e b m = absurd (ground arith)
below_of-some (text t) (some (struct_of ns)) subs e b m = absurd (ground arith)
below_of-some (other_value t) (some (struct_of ns)) subs e b m = absurd (ground arith)
below_of-some (object gs) (some (struct_of ns)) subs e b m = (gs, ns, refl, refl, ground arith)

below_of-none : (v : Json) (o : Option Schema) → below_of v o ≡ none → o ≡ none
below_of-none v none b = refl
below_of-none v (some leaf) b = absurd (ground arith)
below_of-none (text t) (some (struct_of ns)) b = absurd (ground arith)
below_of-none (other_value t) (some (struct_of ns)) b = absurd (ground arith)
below_of-none (object gs) (some (struct_of ns)) b = absurd (ground arith)

-- What is reported of the first key of an object.
FromHead : Bytes → Bytes → Json → Fields → Members → Type 0
FromHead d k v fs ms = (p : KeyPath) × IsUnknown p (field k v fs) ms × (d ≡ dotted p)

head_reported :
    (d k : Bytes) (v : Json) (fs : Fields) (ms : Members)
    → ((gs : Fields) (ns : Members) (e : Bytes)
        → v ≡ object gs
        → contains (unknown_in gs ns) e ≡ true
        → (p : KeyPath) × IsUnknown p gs ns × (e ≡ dotted p))
    → contains (report_key k (below_of v (member_named k ms))) d ≡ true
    → FromHead d k v fs ms
unfolding FromHead
head_reported d k v fs ms inner h = elim (report_key-cases d k (below_of v (member_named k ms)) h) [
  | inl (b, eq) ↦ (key k, ((v, get_field-head k v fs), below_of-none v (member_named k ms) b), eq)
  | inr (subs, e, b, m, eq) ↦
      let (gs, ns, object_is, struct_is, m') = below_of-some v (member_named k ms) subs e b m in
      let (p, u, eq') = inner gs ns e object_is m' in
      (
        within_section k p,
        (gs, ns, get_field-head k v fs ∙ ap some object_is, struct_is, u),
        eq ∙ ap (dot k) eq',
      )
]

field_reported :
    (d k : Bytes) (v : Json) (fs : Fields) (ms : Members)
    → get_field k fs ≡ none
    → (contains (report_key k (below_of v (member_named k ms))) d ≡ true → FromHead d k v fs ms)
    → (contains (unknown_in fs ms) d ≡ true → (p : KeyPath) × IsUnknown p fs ms × (d ≡ dotted p))
    → contains (unknown_in (field k v fs) ms) d ≡ true
    → FromHead d k v fs ms
unfolding FromHead
field_reported d k v fs ms fresh head tail h =
    let split =
      ap (λ l. contains l d) (unknown_in-field k v fs ms)
      ∙ contains-append d (report_key k (below_of v (member_named k ms))) (unknown_in fs ms) in
    elim (Bool-cases (contains (report_key k (below_of v (member_named k ms))) d)) [
      | inl y ↦ head y
      | inr n ↦
          let (p, u, eq) = tail (ground (arith, split)) in
          (p, IsUnknown-tail p k v fs ms fresh u, eq)
    ]

abbrev members_of : Json → Fields
members_of (object gs) = gs
members_of (text t) = empty
members_of (other_value t) = empty

reported-IsUnknown :
    (fs : Fields) (ms : Members) (d : Bytes)
    → AreDistinct fs
    → contains (unknown_in fs ms) d ≡ true
    → (p : KeyPath) × IsUnknown p fs ms × (d ≡ dotted p)
unfolding FromHead unknown_in
reported-IsUnknown empty ms d a h = absurd (ground arith)
reported-IsUnknown (field k (text t) fs) ms d (fresh, a) h =
    field_reported d k (text t) fs ms fresh
      (head_reported d k (text t) fs ms (λ gs ns e is m. absurd (ground arith)))
      (reported-IsUnknown fs ms d a) h
reported-IsUnknown (field k (other_value t) fs) ms d (fresh, a) h =
    field_reported d k (other_value t) fs ms fresh
      (head_reported d k (other_value t) fs ms (λ gs ns e is m. absurd (ground arith)))
      (reported-IsUnknown fs ms d a) h
reported-IsUnknown (field k (object gs) fs) ms d (fresh, b, a) h =
    field_reported d k (object gs) fs ms fresh
      (head_reported d k (object gs) fs ms (λ gs' ns e is m.
        let same = ap members_of is in
        subst (λ z. (p : KeyPath) × IsUnknown p z ns × (e ≡ dotted p)) same
          (reported-IsUnknown gs ns e b
            (subst (λ z. contains (unknown_in z ns) e ≡ true) (sym same) m))))
      (reported-IsUnknown fs ms d a) h

-- A key that is found reports what it has to report.
found_reported :
    (d k : Bytes) (v : Json) (fs : Fields) (ms : Members)
    → get_field k fs ≡ some v
    → contains (report_key k (below_of v (member_named k ms))) d ≡ true
    → contains (unknown_in fs ms) d ≡ true
unfolding get_field
found_reported d k v empty ms f h = absurd (ground arith)
found_reported d k v (field j w fs) ms f h =
    let split =
      ap (λ l. contains l d) (unknown_in-field j w fs ms)
      ∙ contains-append d (report_key j (below_of w (member_named j ms))) (unknown_in fs ms) in
    elim (Bool-cases (k == j)) [
      | inr n ↦ ground (arith, split, found_reported d k v fs ms (ground arith) h)
      | inl y ↦
          let same = ==→eq k j y in
          let value : v ≡ w = ground arith in
          let here : contains (report_key j (below_of w (member_named j ms))) d ≡ true =
            subst (λ i. contains (report_key i (below_of w (member_named i ms))) d ≡ true) same
              (subst (λ u. contains (report_key k (below_of u (member_named k ms))) d ≡ true) value
                h) in
          ground (arith, split, here)
    ]

IsUnknown-reported :
    (p : KeyPath) (fs : Fields) (ms : Members)
    → IsUnknown p fs ms
    → contains (unknown_in fs ms) (dotted p) ≡ true
IsUnknown-reported (key k) fs ms ((v, f), m) = found_reported k k v fs ms f (rw (m, ==-self k))
IsUnknown-reported (within_section k p) fs ms (gs, ns, f, m, u) =
    found_reported (dot k (dotted p)) k (object gs) fs ms f
      (rw m (contains-map k (dotted p) (unknown_in gs ns) (IsUnknown-reported p gs ns u)))

-- In a file whose objects have no key twice, exactly those keys are reported, with their sections, that
-- stand in an object where the section that it is read into declares none of that name.
pub unknown_keys_iff :
    (fs : Fields) (d : Bytes)
    → AreDistinct fs
    → (contains (unknown_keys (some fs)) d ≡ true)
      ↔ ((p : KeyPath) × IsUnknown p fs config_members × (d ≡ dotted p))
unfolding unknown_keys
unknown_keys_iff fs d a = (
  (λ h.
      reported-IsUnknown fs config_members d a
        (sym (contains-sort bytes_leb d (unknown_in fs config_members)) ∙ h)),
  (λ (p, u, e).
      contains-sort bytes_leb d (unknown_in fs config_members)
      ∙ ap (contains (unknown_in fs config_members)) e
      ∙ IsUnknown-reported p fs config_members u),
)
