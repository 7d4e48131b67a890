-- ===== src/Wireguard/Server/Peers.antt =====
-- internal/wireguard/server.go: what the calls of `AddPeer` and `RemovePeer` leave in the table of peers.
use mathlib.Core.Path.{fun_ext}
use atreo_agent.Base.{
  is_empty, has_prefix, eqb, length, Bool, true, false, not, ◌&&◌, Text, lit, ◌==◌, ==_iff, List,
  [], ◌∷◌, Option, none, some, lookup, insert, lookup-insert, lookup-delete, ◌≡◌, ◌⊎◌, refl, ap,
  ◌∙◌, arith, Bool-cases, Option-cases, inl, inr, if◌then◌else◌,
}
use atreo_agent.Base.Result.{require, OnOk, OnOk-of, OnOk-require, OnOk-need, Result-cases}
use atreo_agent.Base.Base64.{decode}
use atreo_agent.Firewall.{Command, Host, run}
use atreo_agent.Wireguard.Addresses.{
  Net, wrong_key_size, validate_wg_public_key, validate_tunnel_ipv4,
}
use atreo_agent.Wireguard.Server.{
  Server, PeerError, bad_key, bad_tunnel_ip, wg_failed, tunnel_ipv6, install_peer, add_peer,
  remove_peer,
}

pub data Call : Type 0 where
  adds : (key ip : Text) → Call
  removes : (key : Text) → Call

abbrev pub World : Type 0
World = Server × List Command

-- The base64 of 32 bytes that is not empty and does not start with a dash.
unfoldable pub passes : Text → Bool
passes key =
    not (is_empty key)
    && not (has_prefix key (lit "-"))
    && elim (decode key) [ none ↦ false | some b ↦ eqb (length b) 32 ]

validate_wg_public_key-passes :
    (key : Text) → OnOk (λ u. passes key ≡ true) (validate_wg_public_key key)
unfolding validate_wg_public_key passes
validate_wg_public_key-passes key =
    let P = λ (u : Unit). passes key ≡ true in
    OnOk-require P (not (is_empty key)) _ _ λ u1 given.
      OnOk-require P (not (has_prefix key (lit "-"))) _ _
        λ u2 plain. OnOk-need P (decode key) _ _ λ b decoded. last given plain b decoded
  where
    last :
        not (is_empty key) ≡ true
        → not (has_prefix key (lit "-")) ≡ true
        → (b : Text) → decode key ≡ some b
        → OnOk (λ u. passes key ≡ true) (require (eqb (length b) 32) wrong_key_size)
    last given plain b decoded = elim (Bool-cases (eqb (length b) 32)) [
      | inl size ↦ rw size (rw (passes, given, plain, decoded) size)
      | inr wrong ↦ rw wrong tt
    ]

unfoldable pub step : Host → Net → Call → World → World
step h n (adds key ip) (s, log) = let r = add_peer h n key ip s log in (r.0, r.1)
step h n (removes key) (s, log) = remove_peer h n key s log

unfoldable pub run_calls : Host → Net → List Call → World → World
run_calls h n [] w = w
run_calls h n (c ∷ cs) w = run_calls h n cs (step h n c w)

-- What each call returns; `RemovePeer` always returns nil.
unfoldable pub result : Host → Net → Call → World → Option PeerError
result h n (adds key ip) (s, log) = (add_peer h n key ip s log).2
result h n (removes key) w = none

unfoldable pub history : Host → Net → List Call → World → List (Call × Option PeerError)
history h n [] w = []
history h n (c ∷ cs) w = (c, result h n c w) ∷ history h n cs (step h n c w)

-- The abstract table: an address for each key.
unfoldable pub table : Server → Text → Option Text
table s key = elim (lookup key s.peers) [ none ↦ none | some p ↦ some p.tunnel_ip ]

unfoldable pub updated : (Text → Option Text) → Text → Option Text → Text → Option Text
updated f key value other = if key == other then value else f other

unfoldable pub meaning : Call → Option PeerError → (Text → Option Text) → Text → Option Text
meaning (removes key) e f = updated f key none
meaning (adds key ip) none f = updated f key (some ip)
meaning (adds key ip) (some e) f = f

unfoldable pub replay : List (Call × Option PeerError) → (Text → Option Text) → Text → Option Text
replay [] f = f
replay ((c, e) ∷ past) f = replay past (meaning c e f)

module _ (h : Host) (n : Net) where
  -- Either the key is refused and nothing is run, or the rest of `AddPeer` runs.
  pub add_peer-cases :
      (key ip : Text) (s : Server) (log : List Command)
      → ((e : PeerError) × (add_peer h n key ip s log ≡ (s, log, some e)))
        ⊎ ((passes key ≡ true) × (add_peer h n key ip s log ≡ install_peer h n key ip s log))
  unfolding add_peer
  add_peer-cases key ip s log = elim (Result-cases (validate_wg_public_key key)) [
    | inl (e, bad) ↦ inl (bad_key e, rw (bad, add_peer))
    | inr (u, good) ↦ elim (Bool-cases (validate_tunnel_ipv4 n ip)) [
      | inl v4 ↦ inr (
        OnOk-of (λ u. passes key ≡ true) good (validate_wg_public_key-passes key),
        rw (good, v4, add_peer),
      )
      | inr no_v4 ↦ inl (bad_tunnel_ip, rw (good, no_v4, add_peer))
    ]
  ]

  pub install_peer-cases :
      (key ip : Text) (s : Server) (log : List Command)
      → ((install_peer h n key ip s log).0 ≡ s)
          × ((install_peer h n key ip s log).2 ≡ some wg_failed)
        ⊎ ((install_peer h n key ip s log).0 ≡ record s {
          peers =
              insert key
                (record { public_key = key; tunnel_ip = ip; tunnel_ipv6 = tunnel_ipv6 n s ip })
                s.peers;
        })
          × ((install_peer h n key ip s log).2 ≡ none)
  unfolding install_peer run
  install_peer-cases key ip s log = ground arith

  pub lookup-remove_peer :
      (key k : Text) (s : Server) (log : List Command)
      → lookup k (remove_peer h n key s log).0.peers ≡ (if key == k then none else lookup k s.peers)
  unfolding remove_peer
  lookup-remove_peer key k s log = elim (Option-cases (lookup key s.peers)) [
    | inl absent ↦ rw (absent, remove_peer) (ground (arith, ==_iff key k, absent))
    | inr (p, e) ↦ rw (e, remove_peer) (lookup-delete key k s.peers)
  ]

  -- One call, at one key of the table.
  pub table-step :
      (c : Call) (w : World) (other : Text)
      → table (step h n c w).0 other ≡ meaning c (result h n c w) (table w.0) other
  unfolding step result meaning updated table
  table-step (removes key) (s, log) other = ground (arith, lookup-remove_peer key other s log)
  table-step (adds key ip) (s, log) other = elim (add_peer-cases key ip s log) [
    | inl (e, refused) ↦ rw (refused, meaning, result)
    | inr (good, e) ↦
        rw (e, meaning, result)
          (elim (install_peer-cases key ip s log) [
            | inl (same, err) ↦ rw (same, err, meaning, result)
            | inr (new, fine) ↦
                rw (new, fine, meaning, result)
                  (ground (
                    arith,
                    lookup-insert key other
                        (record {
                          public_key = key;
                          tunnel_ip = ip;
                          tunnel_ipv6 = tunnel_ipv6 n s ip;
                        })
                        s.peers,
                  ))
          ])
  ]

  -- The server refines a table of addresses by key, over any calls and whichever commands fail: after
  -- the calls the table is the one that they mean, in their order, where an `AddPeer` without an error
  -- gives its key the address, one with an error changes nothing, and a `RemovePeer` takes its key
  -- away, also when the kernel refuses.
  pub table-run_calls :
      (cs : List Call) (w : World)
      → table (run_calls h n cs w).0 ≡ replay (history h n cs w) (table w.0)
  unfolding run_calls history replay
  table-run_calls [] w = refl
  table-run_calls (c ∷ cs) w =
      table-run_calls cs (step h n c w)
      ∙ ap (replay (history h n cs (step h n c w))) (fun_ext λ other. table-step c w other)
