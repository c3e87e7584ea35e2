-- ===== src/Vendor.antt =====
-- What the program takes from crates outside this repository: the key types of the key management
-- service, the addresses of libp2p and the ledger of nomos-core. The development takes them as one
-- parameter. A law states documented behaviour of those crates that a theorem relies on.
use logos_blockchain_testing.Prelude.{
  ℕ, ◌≡◌, String, List, [], ◌∷◌, ◌++◌, Option, none, some, Result,
}

pub record Vendor : Type 1 where
  -- key-management-system-service
  pub ZkKey : Type 0
  pub ZkPublicKey : Type 0
  -- `ZkKey::from(BigUint::from_bytes_le(bytes))`, and the same of `UnsecuredZkKey`
  pub zk_key : List ℕ → ZkKey
  pub to_public_key : ZkKey → ZkPublicKey
  pub Ed25519Key : Type 0
  pub ed25519_key : List ℕ → Ed25519Key
  -- the bytes of the public key
  pub ed25519_public_bytes : Ed25519Key → List ℕ
  -- `hex::encode` of the bytes of a public key
  pub hex : List ℕ → String
  pub zk_public_bytes : ZkPublicKey → List ℕ
  -- libp2p
  pub SecretKey : Type 0
  -- `ed25519::SecretKey::try_from_bytes`, an error with its message
  pub secret_key : List ℕ → Result SecretKey String
  pub PeerId : Type 0
  -- `PeerId::from_public_key` of the key pair
  pub peer_id : SecretKey → PeerId
  pub Protocol : Type 0
  pub ip4 : List ℕ → Protocol
  pub udp : ℕ → Protocol
  pub quic_v1 : Protocol
  pub p2p : PeerId → Protocol
  -- the matches on `Protocol::Udp(port)` and `Protocol::Tcp(port)`
  pub udp_port : Protocol → Option ℕ
  pub tcp_port : Protocol → Option ℕ
  pub Multiaddr : Type 0
  pub empty_multiaddr : Multiaddr
  pub push : Multiaddr → Protocol → Multiaddr
  pub iter : Multiaddr → List Protocol
  -- `multiaddr(ip, port)`, a QUIC address
  pub multiaddr : List ℕ → ℕ → Multiaddr
  pub parse_multiaddr : String → Result Multiaddr String
  pub iter-push : (a : Multiaddr) (p : Protocol) → iter (push a p) ≡ iter a ++ p ∷ []
  pub iter-empty : iter empty_multiaddr ≡ []
  pub iter-multiaddr :
      (ip : List ℕ) (port : ℕ) → iter (multiaddr ip port) ≡ ip4 ip ∷ udp port ∷ quic_v1 ∷ []
  pub udp_port-udp : (port : ℕ) → udp_port (udp port) ≡ some port
  pub udp_port-ip4 : (ip : List ℕ) → udp_port (ip4 ip) ≡ none
  pub tcp_port-ip4 : (ip : List ℕ) → tcp_port (ip4 ip) ≡ none
  -- nomos-core: hashes and signatures
  pub Hash : Type 0
  pub zero_hash : Hash
  pub NoteId : Type 0
  pub ZkSignature : Type 0
  pub Ed25519Signature : Type 0
  pub multi_sign : List ZkKey → Hash → Result ZkSignature String
  pub sign_payload : Ed25519Key → Hash → Ed25519Signature
  -- floating-point numbers
  pub F64 : Type 0
  -- `NonNegativeF64::try_from(1.0)`
  pub non_negative_one : Result F64 String
  pub zero_f64 : F64
  pub one_f64 : F64
  -- `0.5`
  pub half_f64 : F64
  -- `u64::MAX as f64`
  pub max_u64_f64 : F64
  pub mul_f64 : F64 → F64 → F64
  pub div_f64 : F64 → F64 → F64
  pub ceil : F64 → F64
  pub floor : F64 → F64
  -- `value as f64`, of an integer
  pub as_f64 : ℕ → F64
  -- `value.clamp(min, max)`
  pub clamp : F64 → F64 → F64 → F64
  -- `value as u64`
  pub as_u64 : F64 → ℕ
  -- `Duration::as_secs_f64`, of nanoseconds
  pub as_secs_f64 : ℕ → F64
  -- `Duration::mul_f64`; none: it panics
  pub duration_mul_f64 : ℕ → F64 → Option ℕ
  -- `Duration::from_secs_f64`; none: it panics
  pub from_secs_f64 : F64 → Option ℕ
  -- the tracing settings of a node, by its index
  pub TracingSettings : Type 0
  pub tracing_settings : ℕ → TracingSettings
