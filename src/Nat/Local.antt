-- ===== src/Nat/Local.antt =====
-- internal/nat/nat.go: `LocalCandidates`. An interface address is what net.InterfaceAddrs gives, an IP
-- network or another; the three tests, `show` and `join` are those of net.
use relay_tunnel.Prelude.{
  ℕ, ◌≡◌, refl, Bool, true, false, ◌||◌, ◌==◌, Option, none, some, List, [], ◌∷◌, Bytes, contains,
  if◌then◌else◌, bytes_eq, arith, Bool-cases, ==→eq, inl, inr, ◌⊎◌,
}

pub data Interface : Type 0 where
  other_addr : Interface
  ip_net : Option Bytes → Interface

module _ (is_loopback is_unspecified is_link_local : Bytes → Bool) (show : Bytes → Bytes)
    (join : Bytes → ℕ → Bytes) where
  abbrev pub is_excluded : Bytes → Bool
  is_excluded ip = is_loopback ip || is_unspecified ip || is_link_local ip

  unfoldable pub usable_addrs : ℕ → List Interface → List Bytes
  usable_addrs port [] = []
  usable_addrs port (other_addr ∷ addrs) = usable_addrs port addrs
  usable_addrs port (ip_net none ∷ addrs) = usable_addrs port addrs
  usable_addrs port (ip_net (some ip) ∷ addrs) =
      let rest = usable_addrs port addrs in
      if is_excluded ip then rest else join (show ip) port ∷ rest

  -- `LocalCandidates`, of the port of a UDP socket and of the addresses; none is a socket of another
  -- kind, or an error.
  unfoldable pub local_candidates : Option ℕ → Option (List Interface) → List Bytes
  unfolding usable_addrs
  local_candidates none addrs = []
  local_candidates (some port) none = []
  local_candidates (some port) (some addrs) = usable_addrs port addrs

  -- The address is that of an interface, and can be one to reach this machine by.
  abbrev pub IsReachable : Bytes → List Interface → Type 0
  IsReachable ip [] = ⊥
  IsReachable ip (other_addr ∷ addrs) = IsReachable ip addrs
  IsReachable ip (ip_net none ∷ addrs) = IsReachable ip addrs
  IsReachable ip (ip_net (some i) ∷ addrs) =
      ((ip ≡ i) × (is_excluded i ≡ false)) ⊎ IsReachable ip addrs

  -- Each candidate is the text of an address of an interface that is neither loopback, nor unspecified,
  -- nor link-local, with the port of the socket.
  pub usable_addrs-IsReachable :
      (port : ℕ) (addrs : List Interface) (c : Bytes)
      → contains (usable_addrs port addrs) c ≡ true
      → (ip : Bytes) × IsReachable ip addrs × (c ≡ join (show ip) port)
  unfolding usable_addrs
  usable_addrs-IsReachable port [] c h = absurd (ground arith)
  usable_addrs-IsReachable port (other_addr ∷ addrs) c h = usable_addrs-IsReachable port addrs c h
  usable_addrs-IsReachable port (ip_net none ∷ addrs) c h = usable_addrs-IsReachable port addrs c h
  usable_addrs-IsReachable port (ip_net (some i) ∷ addrs) c h = elim (Bool-cases (is_excluded i)) [
    | inl e ↦
        let (ip, r, eq) = usable_addrs-IsReachable port addrs c (ground arith) in (ip, inr r, eq)
    | inr e ↦ elim (Bool-cases (c == join (show i) port)) [
      | inl y ↦ (i, inl (refl, e), ==→eq c (join (show i) port) y)
      | inr n ↦
          let (ip, r, eq) = usable_addrs-IsReachable port addrs c (ground arith) in (ip, inr r, eq)
    ]
  ]
