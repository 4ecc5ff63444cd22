-- ===== src/Config/Unknown/Paths.antt =====
-- internal/config/config.go: the keys of a file that no section declares, by their paths.
use relay_tunnel.Prelude.{
  ◌≡◌, inl, inr, refl, true, ◌==◌, ◌||◌, none, some, List, [], ◌∷◌, ◌++◌, map, Bytes, contains,
  arith, bytes_eq, nat_eq, Bool-cases, ==→eq, ==-self,
}
use relay_tunnel.Config.{Json, text, other_value, object, Fields, empty, field, get_field}
use relay_tunnel.Config.Unknown.{struct_of, Members, member_named, dot}

-- A key of the file: one at its top, or one in the section of another.
pub data KeyPath : Type 0 where
  key : Bytes → KeyPath
  within_section : Bytes → KeyPath → KeyPath

abbrev pub dotted : KeyPath → Bytes
dotted (key k) = k
dotted (within_section k p) = dot k (dotted p)

-- The object has the key, and the section that it stands in declares none of that name.
abbrev pub IsUnknown : KeyPath → Fields → Members → Type 0
IsUnknown (key k) fs ms = ((v : Json) × (get_field k fs ≡ some v)) × (member_named k ms ≡ none)
IsUnknown (within_section k p) fs ms =
    (gs : Fields) × (ns : Members) × (get_field k fs ≡ some (object gs))
    × (member_named k ms ≡ some (struct_of ns))
    × IsUnknown p gs ns

-- No object has a key twice, as in a Go map.
abbrev pub AreDistinct : Fields → Type 0
AreDistinct empty = Unit
AreDistinct (field k (object gs) fs) = (get_field k fs ≡ none) × AreDistinct gs × AreDistinct fs
AreDistinct (field k (text t) fs) = (get_field k fs ≡ none) × AreDistinct fs
AreDistinct (field k (other_value t) fs) = (get_field k fs ≡ none) × AreDistinct fs

pub contains-append :
    (d : Bytes) (xs ys : List Bytes) → contains (xs ++ ys) d ≡ (contains xs d || contains ys d)
contains-append d [] ys = refl
contains-append d (x ∷ xs) ys = ground (arith, contains-append d xs ys)

pub contains-map :
    (k e : Bytes) (xs : List Bytes)
    → contains xs e ≡ true
    → contains (map (dot k) xs) (dot k e) ≡ true
contains-map k e [] h = absurd (ground arith)
contains-map k e (x ∷ xs) h = elim (Bool-cases (e == x)) [
  | inl y ↦ rw (==→eq e x y, ==-self (dot k x))
  | inr n ↦ ground (arith, contains-map k e xs (ground arith))
]

pub contains-map_cases :
    (k d : Bytes) (xs : List Bytes)
    → contains (map (dot k) xs) d ≡ true
    → (e : Bytes) × (contains xs e ≡ true) × (d ≡ dot k e)
contains-map_cases k d [] h = absurd (ground arith)
contains-map_cases k d (x ∷ xs) h = elim (Bool-cases (d == dot k x)) [
  | inl y ↦ (x, rw (==-self x), ==→eq d (dot k x) y)
  | inr n ↦ let (e, m, eq) = contains-map_cases k d xs (ground arith) in (e, ground arith, eq)
]

pub get_field-head : (k : Bytes) (v : Json) (fs : Fields) → get_field k (field k v fs) ≡ some v
unfolding get_field
get_field-head k v fs = rw (==-self k)

-- A key further down stays unknown behind one that it does not have.
pub IsUnknown-tail :
    (p : KeyPath) (k : Bytes) (v : Json) (fs : Fields) (ms : Members)
    → get_field k fs ≡ none
    → IsUnknown p fs ms
    → IsUnknown p (field k v fs) ms
unfolding get_field
IsUnknown-tail (key j) k v fs ms n ((w, h), m) = elim (Bool-cases (j == k)) [
  | inl y ↦ absurd (ground (arith, ==→eq j k y))
  | inr e ↦ ((w, rw e h), m)
]
IsUnknown-tail (within_section j p) k v fs ms n (gs, ns, h, m, u) = elim (Bool-cases (j == k)) [
  | inl y ↦ absurd (ground (arith, ==→eq j k y))
  | inr e ↦ (gs, ns, rw e h, m, u)
]
