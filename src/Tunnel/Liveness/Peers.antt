-- ===== src/Tunnel/Liveness/Peers.antt =====
-- `dropAllPeers` of internal/tunnel/devicestate.go: what it leaves of the peers.
use atreo_agent.Base.{true, false, not, ◌||◌, Text, is_empty, ◌==◌, List, ◌≡◌, any}
use atreo_agent.Atreolink.{ClientRecord}

-- The client has no key, or its key is no peer.
abbrev pub Gone : List Text → ClientRecord → Type 0
Gone peers c = (is_empty c.wg_public_key || not (any (λ p. p == c.wg_public_key) peers)) ≡ true

-- Peers that are removed stay removed.
abbrev Kept : (List Text → List Text) → Type 0
Kept f =
    (other : Text) (ps : List Text)
    → any (λ p. p == other) ps ≡ false
    → any (λ p. p == other) (f ps) ≡ false
