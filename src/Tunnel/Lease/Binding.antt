-- ===== src/Tunnel/Lease/Binding.antt =====
-- internal/tunnel/iplease.go: what a lease that is accepted binds, and that the agent accepts its own.
use atreo_agent.Base.{
  true, false, ◌||◌, Text, is_empty, ◌==◌, ==_iff, ==_refl, eqb, length, some, ◌≡◌, refl, subst,
  arith, Option-cases, Bool-cases, inl, inr, eqb_iff,
}
use atreo_agent.Base.Result.{ok, OnOk, Result-cases}
use atreo_agent.Base.Base64.{encode, decode, decode-encode, encode_nonempty}
use atreo_agent.Canonjson.{Json, Codec}
use atreo_agent.Tunnel.{Crypto, private_key_size, SignsTruly}
use atreo_agent.Tunnel.Lease.{
  TunnelIpLease, lease_body, mint_tunnel_ip_lease, verify_tunnel_ip_lease,
}

-- A lease that is made out to that device and client, with a signature of the key on its body.
pub record Binds (k : Crypto) (c : Codec) (first : Json → Text) (l : TunnelIpLease)
    (device wg key : Text) : Type 0 where
  pub made_out_to_device : l.device_id ≡ device
  pub made_out_to_client : l.wg_public_key ≡ wg
  pub has_address : is_empty l.tunnel_ip ≡ false
  pub body : Text
  pub sig : Text
  pub body_of : lease_body k c first device wg l.tunnel_ip ≡ ok body
  pub sig_of : decode l.nas_signature ≡ some sig
  pub verifies : k.verify key body sig ≡ true

module _ (k : Crypto) (c : Codec) (first : Json → Text) where
  accept :
      (l : TunnelIpLease) (device wg key body sig : Text)
      → (l.device_id == device) ≡ true
      → (l.wg_public_key == wg) ≡ true
      → is_empty l.tunnel_ip ≡ false
      → lease_body k c first l.device_id l.wg_public_key l.tunnel_ip ≡ ok body
      → decode l.nas_signature ≡ some sig
      → k.verify key body sig ≡ true
      → Binds k c first l device wg key
  accept l device wg key body sig hd hw hi hb hs v =
      let same_device = (==_iff l.device_id device).0 hd in
      let same_key = (==_iff l.wg_public_key wg).0 hw in
      record {
        made_out_to_device = same_device;
        made_out_to_client = same_key;
        has_address = hi;
        body = body;
        sig = sig;
        body_of =
            subst (λ d. lease_body k c first d wg l.tunnel_ip ≡ ok body) same_device
              (subst (λ w. lease_body k c first l.device_id w l.tunnel_ip ≡ ok body) same_key hb);
        sig_of = hs;
        verifies = v;
      }

  -- A lease is accepted for a device, a client's key and the agent's key only if it is made out to that
  -- device and that client, has an address, and carries a signature that verifies under the agent's key
  -- over the body of these three.
  pub verify_tunnel_ip_lease-Binds :
      (l : TunnelIpLease) (device wg key : Text)
      → OnOk
          (λ u. Binds k c first l device wg key)
          (verify_tunnel_ip_lease k c first (some l) device wg (some key))
  unfolding verify_tunnel_ip_lease
  verify_tunnel_ip_lease-Binds l device wg key = elim (Bool-cases (l.device_id == device)) [
    | inr bad ↦ rw (bad, verify_tunnel_ip_lease) tt
    | inl hd ↦ elim (Bool-cases (l.wg_public_key == wg)) [
      | inr bad ↦ rw (hd, bad, verify_tunnel_ip_lease) tt
      | inl hw ↦ elim (Bool-cases (is_empty l.tunnel_ip)) [
        | inl bad ↦ rw (hd, hw, bad, verify_tunnel_ip_lease) tt
        | inr hi ↦ elim (Bool-cases (is_empty l.nas_signature)) [
          | inl bad ↦ rw (hd, hw, hi, bad, verify_tunnel_ip_lease) tt
          | inr hn ↦ elim (Option-cases (decode l.nas_signature)) [
            | inl bad ↦ rw (hd, hw, hi, hn, bad, verify_tunnel_ip_lease) tt
            | inr (sig, hs) ↦
                elim (Result-cases (lease_body k c first l.device_id l.wg_public_key l.tunnel_ip)) [
                  | inl (err, bad) ↦ rw (hd, hw, hi, hn, hs, bad, verify_tunnel_ip_lease) tt
                  | inr (body, hb) ↦ elim (Bool-cases (k.verify key body sig)) [
                    | inr bad ↦ rw (hd, hw, hi, hn, hs, hb, bad, verify_tunnel_ip_lease) tt
                    | inl v ↦
                        rw (hd, hw, hi, hn, hs, hb, v, verify_tunnel_ip_lease)
                          (accept l device wg key body sig hd hw hi hb hs v)
                  ]
                ]
          ]
        ]
      ]
    ]
  ]

  -- With a private key that signs as crypto/ed25519 documents of the keys it makes, a lease that the
  -- agent mints is accepted for its device and client under the agent's public key.
  pub verify-mint_tunnel_ip_lease :
      (device wg ip signer : Text)
      → SignsTruly k signer
      → OnOk
          (λ l.
            verify_tunnel_ip_lease k c first (some l) device wg (some (k.public_of signer)) ≡ ok tt)
          (mint_tunnel_ip_lease k c first device wg ip signer)
  unfolding mint_tunnel_ip_lease verify_tunnel_ip_lease
  verify-mint_tunnel_ip_lease device wg ip signer truly =
      elim (Bool-cases (is_empty device || (is_empty wg || is_empty ip))) [
        | inl bad ↦ rw (bad, mint_tunnel_ip_lease) tt
        | inr filled ↦ elim (Bool-cases (eqb (length signer) private_key_size)) [
          | inr bad ↦ rw (filled, bad, mint_tunnel_ip_lease) tt
          | inl size ↦ elim (Result-cases (lease_body k c first device wg ip)) [
            | inl (err, bad) ↦ rw (filled, size, bad, mint_tunnel_ip_lease) tt
            | inr (body, eb) ↦
                rw (filled, size, eb, mint_tunnel_ip_lease)
                  (accepted body eb (ground arith)
                    ((eqb_iff (length signer) private_key_size).0 size))
          ]
        ]
      ]
    where
      accepted :
          (body : Text)
          → lease_body k c first device wg ip ≡ ok body
          → is_empty ip ≡ false
          → length signer ≡ private_key_size
          → verify_tunnel_ip_lease k c first
              (some (record {
                device_id = device;
                wg_public_key = wg;
                tunnel_ip = ip;
                nas_signature = encode (k.sign signer body);
              }))
              device
              wg
              (some (k.public_of signer))
            ≡ ok tt
      accepted body eb filled size =
          let signed =
            encode_nonempty (k.sign signer body) (omega (arith, truly.signature_size body)) in
          rw
            (
              ==_refl device,
              ==_refl wg,
              filled,
              signed,
              decode-encode (k.sign signer body) (truly.signature_bytes body),
              eb,
              truly.verifies body,
              verify_tunnel_ip_lease,
            )
            refl
