-- ===== src/Sync/Host/Confined.antt =====
-- examples/relay-sync/host.go: what a request may change and disclose.
use relay_tunnel.Prelude.{AllOf, Bool, ℕ, Bool, some, Bytes, length, lookup, nat_eq, bytes_eq, ◌≡◌}
use relay_tunnel.App.Host.Laws.{IsWithin}
use relay_tunnel.Sync.Files.{Tree, File}
use relay_tunnel.Sync.Host.{Reply, file, listing}
use relay_tunnel.Sync.Host.Listed.{ListedFrom}

-- What a reply may disclose: a file below the root, or the entries of files in a directory there.
abbrev pub Discloses : ℕ → Bytes → Tree → Reply → Type 0
Discloses sep root fs (file n b) =
    (p : Bytes) × (f : File) × IsWithin sep p root
    × (lookup p fs ≡ some f)
    × (b ≡ f.content)
    × (n ≡ length b)
Discloses sep root fs (listing es) =
    (base : Bytes) × IsWithin sep base root × AllOf (ListedFrom sep base fs) es
Discloses sep root fs _ = Unit

-- What an answer may change and disclose.
abbrev Confines : ℕ → Bytes → Tree → Tree × Reply → Type 0
Confines sep root fs answer =
    ((q : Bytes) → ¬ IsWithin sep q root → lookup q answer.0 ≡ lookup q fs)
    × Discloses sep root fs answer.1
