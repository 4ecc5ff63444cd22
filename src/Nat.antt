-- ===== src/Nat.antt =====
-- internal/nat/nat.go: reflection, hole punching and the relayed packet connection.
pub mod Candidates
pub mod Local
pub mod Punch
pub mod Relay
use relay_tunnel.Prelude.{
  ℕ, Bool, true, false, ◌&&◌, ◌==◌, List, [], ◌∷◌, ◌++◌, Bytes, length, take, drop, if◌then◌else◌,
  nat_eq, bytes_eq,
}
use relay_tunnel.Signal.State.{Addr}

-- `net.IP.Equal`: an IPv4 address equals its IPv6 form.
abbrev v4_in_v6 : Bytes
v4_in_v6 = 0 ∷ 0 ∷ 0 ∷ 0 ∷ 0 ∷ 0 ∷ 0 ∷ 0 ∷ 0 ∷ 0 ∷ 255 ∷ 255 ∷ []

unfoldable pub same_ip : Bytes → Bytes → Bool
same_ip a b =
    if length a == length b
    then a == b
    else if length a == 4 && length b == 16
    then v4_in_v6 ++ a == b
    else if length a == 16 && length b == 4
    then a == v4_in_v6 ++ b
    else false

-- `sameHostPort`
unfoldable pub same_host_port : Addr → Addr → Bool
unfolding same_ip
same_host_port a b = a.port == b.port && same_ip a.ip b.ip
