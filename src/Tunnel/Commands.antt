-- ===== src/Tunnel/Commands.antt =====
-- internal/tunnel: `HandleUnpaired`, `HandleNotifyAPIKey` and `HandleNotifyAPIKeyRotate` of handler.go, and
-- `HandleHeartbeatAck` of devicestate.go. The JSON of the payloads is a parameter.
pub mod Owner
use atreo_agent.Base.{
  ℕ, ◌/◌, Bool, true, false, not, ◌&&◌, ◌||◌, Text, lit, is_empty, ◌==◌, List, [], ◌∷◌, Option,
  none, some, ◌≡◌, ◌⊎◌, refl, arith, Bool-cases, Option-cases, inl, inr, if◌then◌else◌,
}
use atreo_agent.Base.Int.{ℤ, pos_part, neg_part, ltb_ℤ}
use atreo_agent.Base.Result.{Result, ok, failed, ◌>>=◌, require, need, map_error, Result-cases}
use atreo_agent.Acl.{Store, StoreError}
use atreo_agent.Acl.Members.{clear_pinned_admin_public_key}
use atreo_agent.Firewall.{Command}
use atreo_agent.Wireguard.Server.{Server, stop}
use atreo_agent.Tunnel.Verify.{
  TunnelMessage, VerifyError, CommandEnvelopeFields, admin_auth, verify_command,
}
use atreo_agent.Tunnel.Liveness.{mark_liveness}
use atreo_agent.Tunnel.Wire.{int64, joined}
use atreo_agent.Tunnel.State.{Libraries, Identity}
use atreo_agent.Tunnel.Handlers.{Handlers, World}

-- `DeviceUnpairedPayload`, `NotifyAPIKeyPayload` and `NotifyAPIKeyRotatePayload`.
pub record DevicePayload : Type 0 where
  pub fields : CommandEnvelopeFields
  pub device_id : Text

pub data CommandError : Type 0 where
  bad_payload wrong_device not_configured no_new_key : CommandError
  command_refused : VerifyError → CommandError

-- The part of the notification server that the handlers call: the key, the port, and the outcome of
-- `RotateAPIKey`, `none` for its error.
pub record NotifyServer : Type 0 where
  pub api_key : Text
  pub port : ℕ

-- Whether the process goes on, whether the pairing state is on disk, and the notification server.
pub record Process : Type 0 where
  pub handlers : Handlers
  pub running : Bool
  pub paired_file : Bool
  pub notify : Option NotifyServer

-- The decoders and the writers, and `pairingPath`; `removes` and `clears` tell whether the disk lets
-- a file be removed.
pub record Payloads : Type 0 where
  pub device : Text → Option DevicePayload
  pub generation : Text → Option ℤ
  pub write_key : NotifyServer → Text
  pub write_new_key : Text → Text
  pub pairing_path : Text
  pub removes : Bool
  pub clears : Bool

unfoldable pub same_generation : ℤ → ℤ → Bool
same_generation a b = not (ltb_ℤ a b) && not (ltb_ℤ b a)

module _ (l : Libraries) (i : Identity) (w : World) (q : Payloads) where
  -- The checks that the three commands share; `intent` is the first part of theirs.
  unfoldable pub admin_command : Text → Store → TunnelMessage → Result {0, 0} CommandError Unit
  admin_command intent s msg = do
    payload ← need (q.device msg.payload) bad_payload
    _ ← require (is_empty payload.device_id || payload.device_id == i.device_id) wrong_device
    map_error command_refused (
        verify_command l.crypto l.codec s (w.now / 1_000_000_000) msg admin_auth payload.fields
          (joined intent (i.device_id ∷ l.digits (int64 payload.fields.timestamp) ∷ [])))

  -- `Stop`, `ClearPinnedAdminPublicKey`, the removal of the pairing state, and `os.Exit`; the errors
  -- are logged.
  unfoldable pub unpair : Process → Process
  unpair p =
      let h = p.handlers in
      let (server, log) = stop w.host w.net h.server h.log in
      record p {
        handlers = record h {
          server = server;
          log = log;
          acl = (clear_pinned_admin_public_key q.clears h.acl).0;
        };
        paired_file = p.paired_file && (is_empty q.pairing_path || not q.removes);
        running = false;
      }

  unfoldable pub handle_unpaired : TunnelMessage → Process → Process × Option CommandError
  unfolding admin_command unpair
  handle_unpaired msg p = elim (admin_command (lit "unpair-device") p.handlers.acl msg) [
    | failed e ↦ (p, some e)
    | ok _ ↦ (unpair p, none)
  ]

  unfoldable pub answer : TunnelMessage → Text → Text → TunnelMessage
  answer msg type payload = record {
    type = type;
    correlation_id = msg.correlation_id;
    payload = payload;
    signer_id = [];
    signature = [];
  }

  unfoldable pub handle_notify_api_key : TunnelMessage → Process → Result CommandError TunnelMessage
  unfolding admin_command answer
  handle_notify_api_key msg p = do
    n ← need p.notify not_configured
    _ ← admin_command (lit "notify:apikey") p.handlers.acl msg
    ok (answer msg (lit "notify:apikey:response") (q.write_key n))

  -- The new key is in force once it is there.
  unfoldable pub rotated :
      TunnelMessage
      → Option Text
      → NotifyServer
      → Process
      → Process × Result CommandError TunnelMessage
  unfolding answer
  rotated msg none n p = (p, failed no_new_key)
  rotated msg (some key) n p = (
    record p { notify = some (record n { api_key = key }) },
    ok (answer msg (lit "notify:apikey:rotate:response") (q.write_new_key key)),
  )

  unfoldable pub handle_notify_api_key_rotate :
      Option Text → TunnelMessage → Process → Process × Result CommandError TunnelMessage
  unfolding admin_command rotated
  handle_notify_api_key_rotate new msg p = elim p.notify [
    | none ↦ (p, failed not_configured)
    | some n ↦ elim (admin_command (lit "notify:apikey:rotate") p.handlers.acl msg) [
      | failed e ↦ (p, failed e)
      | ok _ ↦ rotated msg new n p
    ]
  ]

  -- `HandleHeartbeatAck`
  unfoldable pub handle_heartbeat_ack : TunnelMessage → Handlers → Handlers × Option CommandError
  unfolding same_generation
  handle_heartbeat_ack msg h = elim (q.generation msg.payload) [
    | none ↦ (h, some bad_payload)
    | some generation ↦ (
      (if same_generation generation h.acl.generation
          then record h { live = mark_liveness false w.now h.live }
          else h),
      none,
    )
  ]
