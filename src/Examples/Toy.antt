-- ===== src/Examples/Toy.antt =====
-- Keys that are their bytes, addresses that are the lists of their protocols, and a ledger whose
-- genesis transaction is the transaction that it wraps.
use logos_blockchain_testing.Prelude.{
  ℕ, ◌*◌, ◌/◌, ◌-◌, ◌^◌, min, max, ◌+◌, ◌≡◌, refl, true, Option, none, some, List, [], ◌∷◌, ◌++◌,
  String, concat, decimal, replicate, Result, ok, err, length,
}
use logos_blockchain_testing.Vendor.{Vendor}
use logos_blockchain_testing.Os.{Os, NodeId}
use logos_blockchain_testing.Config.Ledger.{Ledger, MantleTx, SignedMantleTx}

pub data ToyProtocol : Type 0 where
  ip4 : List ℕ → ToyProtocol
  udp : ℕ → ToyProtocol
  quic_v1 : ToyProtocol
  p2p : List ℕ → ToyProtocol

abbrev udp_port_of : ToyProtocol → Option ℕ
udp_port_of (ip4 ip) = none
udp_port_of (udp port) = some port
udp_port_of quic_v1 = none
udp_port_of (p2p id) = none

abbrev hex_of : List ℕ → String
hex_of [] = ""
hex_of (b ∷ rest) = concat (decimal b) (concat "." (hex_of rest))

abbrev pub toy : Vendor
toy = record {
  ZkKey = List ℕ;
  ZkPublicKey = List ℕ;
  zk_key = λ bytes. bytes;
  to_public_key = λ sk. sk;
  Ed25519Key = List ℕ;
  ed25519_key = λ bytes. bytes;
  ed25519_public_bytes = λ sk. sk;
  hex = hex_of;
  zk_public_bytes = λ pk. pk;
  SecretKey = List ℕ;
  secret_key = λ bytes. ok bytes;
  PeerId = List ℕ;
  peer_id = λ sk. sk;
  Protocol = ToyProtocol;
  ip4 = λ ip. ip4 ip;
  udp = λ port. udp port;
  quic_v1 = quic_v1;
  p2p = λ id. p2p id;
  udp_port = udp_port_of;
  tcp_port = λ p. none;
  Multiaddr = List ToyProtocol;
  empty_multiaddr = [];
  push = λ a p. a ++ p ∷ [];
  iter = λ a. a;
  multiaddr = λ ip port. ip4 ip ∷ udp port ∷ quic_v1 ∷ [];
  parse_multiaddr = λ text. ok [];
  iter-push = λ a p. refl;
  iter-empty = refl;
  iter-multiaddr = λ ip port. refl;
  udp_port-udp = λ port. refl;
  udp_port-ip4 = λ ip. refl;
  tcp_port-ip4 = λ ip. refl;
  Hash = ℕ;
  zero_hash = 0;
  NoteId = ℕ;
  ZkSignature = ℕ;
  Ed25519Signature = ℕ;
  multi_sign = λ keys hash. ok (length keys);
  sign_payload = λ key hash. hash;
  F64 = ℕ;
  non_negative_one = ok 1;
  zero_f64 = 0;
  one_f64 = 1;
  half_f64 = 1;
  max_u64_f64 = 2 ^ 64 - 1;
  mul_f64 = λ a b. a * b;
  div_f64 = λ a b. a / b;
  ceil = λ a. a;
  floor = λ a. a;
  as_f64 = λ n. n;
  clamp = λ a low high. min high (max low a);
  as_u64 = λ a. a;
  as_secs_f64 = λ nanos. nanos / 1000000000;
  duration_mul_f64 = λ nanos a. some (nanos * a);
  from_secs_f64 = λ a. some (a * 1000000000);
  TracingSettings = ℕ;
  tracing_settings = λ i. i;
}

pub from_tx-ok_toy :
    (tx : SignedMantleTx toy) (g : MantleTx toy)
    → ◌≡◌ {A = Result (MantleTx toy) String} (ok tx.mantle_tx) (ok g)
    → g ≡ tx.mantle_tx
from_tx-ok_toy tx g e = cc

abbrev pub toy_ledger : Ledger toy
toy_ledger = record {
  GenesisTx = MantleTx toy;
  mantle_tx = λ g. g;
  from_tx = λ tx. ok tx.mantle_tx;
  hash_ledger_tx = λ tx. length tx.outputs;
  hash_mantle_tx = λ tx. length tx.ops;
  utxo_id = λ u. u.output_index;
  zero_signer = ok tt;
  from_tx-ok = from_tx-ok_toy;
}

abbrev pub id_of : ℕ → NodeId
id_of i = replicate 32 i

-- Every port is free, the ids are numbered.
abbrev pub toy_os : Os
toy_os = record {
  udp = λ n. some (3000 + n);
  tcp = λ n. some (8000 + n);
  random = id_of;
  use_autonat = true;
  slot_time = none;
  now = 0;
}

abbrev pub from_ok {ℓ κ} : {A : Type ℓ} {E : Type κ} → A → Result A E → A
from_ok default (ok a) = a
from_ok default (err e) = default
