-- ===== src/Tunnel.antt =====
-- internal/tunnel: the messages of the coordination service that the agent acts on, each checked against
-- a key that the service does not hold. crypto/ed25519 and crypto/sha256 are parameters.
pub mod Verify
mod Tests
pub mod Lease
pub mod Liveness
pub mod Admittance
pub mod Attestation
pub mod Wire
pub mod State
pub mod Domain
pub mod Handlers
pub mod Transcript
pub mod Challenge
pub mod Provision
pub mod Commands
use atreo_agent.Base.Base64.{IsBytes}
use atreo_agent.Base.{Bool, true, Text, length, ◌≡◌, ℕ}

-- `sign` takes the private key, `public_of` gives the public key that goes with it.
pub record Crypto : Type 0 where
  pub verify : Text → Text → Text → Bool
  pub sign : Text → Text → Text
  pub public_of : Text → Text
  pub sha256 : Text → Text

abbrev pub public_key_size : ℕ
public_key_size = 32

abbrev pub private_key_size : ℕ
private_key_size = 64

-- What crypto/ed25519 documents of a private key that it has made: a signature with it is 64 bytes and
-- verifies under the public key that goes with it.
pub record SignsTruly (k : Crypto) (key : Text) : Type 0 where
  pub verifies : (message : Text) → k.verify (k.public_of key) message (k.sign key message) ≡ true
  pub signature_bytes : (message : Text) → IsBytes (k.sign key message)
  pub signature_size : (message : Text) → length (k.sign key message) ≡ 64
