-- ===== src/Tunnel/Liveness.antt =====
-- internal/tunnel/devicestate.go: `livenessState`, `markLiveness`, `checkLiveness` and `dropAllPeers`.
-- Times are nanoseconds; the clock and `LastAppliedAt` of the store are arguments. The two locked
-- sections are one step each.
pub mod Watch
pub mod Peers
use atreo_agent.Base.{
  ℕ, ◌+◌, ◌*◌, Bool, true, false, not, ◌&&◌, ◌||◌, Text, is_empty, ◌==◌, leb, ltb, List, [], ◌∷◌,
  Option, none, some, if◌then◌else◌,
}
use atreo_agent.Atreolink.{ClientRecord, MemberAclEntry}

abbrev pub stale_bound : ℕ
stale_bound = 30 * 60 * 1_000_000_000

abbrev pub cold_start_timeout : ℕ
cold_start_timeout = 90 * 1_000_000_000

-- `last_positive_liveness` is `none` for the zero time.
pub record LivenessState : Type 0 where
  pub boot_at : ℕ
  pub applied_once : Bool
  pub last_positive_liveness : Option ℕ
  pub fail_closed : Bool

-- `liveness()`, on its first call.
unfoldable pub booted : ℕ → LivenessState
booted now = record {
  boot_at = now;
  applied_once = false;
  last_positive_liveness = none;
  fail_closed = false;
}

unfoldable pub mark_liveness : Bool → ℕ → LivenessState → LivenessState
mark_liveness applied now l = record l {
  last_positive_liveness = some now;
  applied_once = applied || l.applied_once;
  fail_closed = false;
}

-- `now.Sub(t) > bound`
unfoldable pub older_than : ℕ → ℕ → ℕ → Bool
older_than bound now t = ltb (t + bound) now

unfoldable pub or_else : Option ℕ → Option ℕ → Option ℕ
or_else none b = b
or_else (some a) b = some a

unfoldable pub is_recent : ℕ → Option ℕ → Bool
unfolding older_than
is_recent now none = false
is_recent now (some t) = not (older_than stale_bound now t)

unfoldable pub is_stale : ℕ → Option ℕ → Bool
unfolding older_than
is_stale now none = false
is_stale now (some t) = older_than stale_bound now t

-- Trips or not: what `if trip` does to the state.
unfoldable pub tripping : Bool → LivenessState → LivenessState × Bool
tripping trip l = (record l { fail_closed = trip || l.fail_closed }, trip)

-- `checkLiveness`; the flag says that the peers are dropped.
unfoldable pub check_liveness : Option ℕ → ℕ → LivenessState → LivenessState × Bool
check_liveness last_applied now l =
    if l.fail_closed
    then (l, false)
    else if l.applied_once
    then tripping (is_stale now (or_else l.last_positive_liveness last_applied)) l
    else if is_recent now last_applied
    then (
      record l {
        applied_once = true;
        last_positive_liveness = or_else l.last_positive_liveness last_applied;
      },
      false,
    )
    else tripping (older_than cold_start_timeout now l.boot_at) l

-- `wgServer.RemovePeer` on the keys of the table of peers: the key goes whatever the commands come to, and
-- the result is always nil.
unfoldable pub remove_peer : Text → List Text → List Text
remove_peer key [] = []
remove_peer key (p ∷ ps) = let rest = remove_peer key ps in if p == key then rest else p ∷ rest

unfoldable pub drop_client_peers : List ClientRecord → List Text → List Text
drop_client_peers [] peers = peers
drop_client_peers (c ∷ cs) peers =
    drop_client_peers cs
      (if is_empty c.wg_public_key then peers else remove_peer c.wg_public_key peers)

unfoldable pub drop_all_peers : List MemberAclEntry → List Text → List Text
drop_all_peers [] peers = peers
drop_all_peers (m ∷ ms) peers = drop_all_peers ms (drop_client_peers m.clients peers)
