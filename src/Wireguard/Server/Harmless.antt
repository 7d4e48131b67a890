-- ===== src/Wireguard/Server/Harmless.antt =====
-- internal/wireguard/server.go: the keys that `AddPeer` and `RemovePeer` hand to the `wg` command.
use atreo_agent.Base.{
  Bool, true, not, ◌||◌, Text, lit, ◌==◌, ==_iff, List, [], ◌∷◌, none, some, lookup, lookup-insert,
  All, ◌≡◌, refl, arith, Bool-cases, Option-cases, inl, inr,
}
use atreo_agent.Firewall.{Command, Host, run}
use atreo_agent.Wireguard.Addresses.{Net}
use atreo_agent.Wireguard.Server.{
  Server, Peer, tunnel_ipv6, install_peer, remove_peer, run_routes, set_peer_args, drop_peer_args,
}
use atreo_agent.Wireguard.Server.Peers.{
  Call, adds, removes, World, passes, step, run_calls, add_peer-cases, install_peer-cases,
  lookup-remove_peer,
}

-- A run of `wg set <iface> peer <key> …` has a key that passes the check.
unfoldable pub key_checked : List Text → Bool
key_checked (a ∷ b ∷ verb ∷ key ∷ rest) = not (verb == lit "peer") || passes key
key_checked _ = true

unfoldable pub is_harmless : Command → Bool
is_harmless c = not (c.bin == lit "wg") || key_checked c.args

pub record Guarded (w : World) : Type 0 where
  pub keys : (key : Text) (p : Peer) → lookup key w.0.peers ≡ some p → passes key ≡ true
  pub commands : All (λ c. is_harmless c ≡ true) w.1

module _ (h : Host) (n : Net) where
  routes-harmless :
      (verb iface ip v6 : Text) (log : List Command)
      → All (λ c. is_harmless c ≡ true) log
      → All (λ c. is_harmless c ≡ true) (run_routes h n verb iface ip v6 log)
  unfolding run_routes run is_harmless ◌==◌
  routes-harmless verb iface ip [] log g = ground arith
  routes-harmless verb iface ip (x ∷ v6) log g = ground arith

  -- The commands of an addition are harmless when the key passes the check.
  install_peer-harmless :
      (key ip : Text) (s : Server) (log : List Command)
      → passes key ≡ true
      → All (λ c. is_harmless c ≡ true) log
      → All (λ c. is_harmless c ≡ true) (install_peer h n key ip s log).1
  unfolding install_peer run is_harmless key_checked ◌==◌
  install_peer-harmless key ip s log good g =
      let c : Command = record {
        bin = lit "wg";
        args = set_peer_args s.iface key ip (tunnel_ipv6 n s ip);
      } in
      let set : is_harmless c ≡ true = unfold set_peer_args in rw good refl in
      elim (Bool-cases (h.succeeds log c)) [
        | inl works ↦
            rw works
              (routes-harmless (lit "replace") s.iface ip (tunnel_ipv6 n s ip) (c ∷ log) (set, g))
        | inr fails ↦ rw fails (set, g)
      ]

  remove_peer-harmless :
      (key : Text) (s : Server) (log : List Command)
      → Guarded (s, log)
      → All (λ c. is_harmless c ≡ true) (remove_peer h n key s log).1
  unfolding remove_peer run is_harmless key_checked ◌==◌
  remove_peer-harmless key s log g = elim (Option-cases (lookup key s.peers)) [
    | inl absent ↦ rw (absent, remove_peer) g.commands
    | inr (peer, e) ↦
        let c : Command = record { bin = lit "wg"; args = drop_peer_args s.iface key } in
        let drop : is_harmless c ≡ true = unfold drop_peer_args in rw (g.keys key peer e) refl in
        rw (e, remove_peer)
          (routes-harmless (lit "del") s.iface peer.tunnel_ip peer.tunnel_ipv6 (c ∷ log)
            (drop, g.commands))
  ]

  step-Guarded : (c : Call) (w : World) → Guarded w → Guarded (step h n c w)
  unfolding step
  step-Guarded (adds key ip) (s, log) g = elim (add_peer-cases h n key ip s log) [
    | inl (e, refused) ↦ rw refused g
    | inr (good, e) ↦ rw e (record {
      keys = λ k p held. elim (install_peer-cases h n key ip s log) [
        | inl (same, err) ↦ g.keys k p (rw same at held)
        | inr (new, fine) ↦
            let held' = rw new at held in
            ground (
              arith,
              lookup-insert key k
                  (record { public_key = key; tunnel_ip = ip; tunnel_ipv6 = tunnel_ipv6 n s ip })
                  s.peers,
              ==_iff key k,
              g.keys k p,
            )
      ];
      commands = install_peer-harmless key ip s log good g.commands;
    })
  ]
  step-Guarded (removes key) (s, log) g = record {
    keys = λ k p held. ground (arith, lookup-remove_peer h n key k s log, g.keys k p);
    commands = remove_peer-harmless key s log g;
  }

  run_calls-Guarded : (cs : List Call) (w : World) → Guarded w → Guarded (run_calls h n cs w)
  unfolding run_calls
  run_calls-Guarded [] w g = g
  run_calls-Guarded (c ∷ cs) w g = run_calls-Guarded cs (step h n c w) (step-Guarded c w g)

-- From a server that has no peers and has run nothing, any calls of `AddPeer` and `RemovePeer`, with
-- whatever keys and addresses, lead to a table whose keys are all the base64 of 32 bytes, with none
-- that starts with a dash, and every `wg … peer` command that was run names such a key.
pub run_calls-harmless :
    (h : Host) (n : Net) (cs : List Call) (s : Server)
    → s.peers ≡ []
    → Guarded (run_calls h n cs (s, []))
unfolding lookup
run_calls-harmless h n cs s e =
    run_calls-Guarded h n cs (s, [])
      (record { keys = λ k p held. absurd (clash (rw e at held)); commands = tt })
  where
    clash : {p : Peer} → (none ≡ some p) → ⊥
    clash e = cc
