-- ===== src/Cfgsync.antt =====
-- testing-framework/tools/cfgsync_tf: the hosts that announce themselves to the configuration server
-- (host.rs), and the initial peers of their configurations, which dial the hosts instead of the
-- generated local nodes (network/address.rs and network/peers.rs).
pub mod Rewrite
pub mod Repo
use logos_blockchain_testing.Prelude.{
  ℕ, suc, ◌+◌, Option, none, some, List, [], ◌∷◌, length, get_elem?, ◌==◌, if◌then◌else◌, String,
  Result, ok, err, ok_or, ◌>>=◌,
}
use logos_blockchain_testing.Vendor.{Vendor}
use logos_blockchain_testing.Peers.{position}

pub data HostKind : Type 0 where
  node : HostKind

pub record Host : Type 0 where
  pub kind : HostKind
  -- the bytes of the IPv4 address
  pub ip : List ℕ
  pub identifier : String
  pub network_port : ℕ
  pub blend_port : ℕ
  pub api_port : ℕ
  pub testing_http_port : ℕ

pub record PortOverrides : Type 0 where
  pub network_port : Option ℕ
  pub blend_port : Option ℕ
  pub api_port : Option ℕ
  pub testing_http_port : Option ℕ

abbrev default_libp2p_network_port : ℕ
default_libp2p_network_port = 3000

abbrev default_blend_network_port : ℕ
default_blend_network_port = 3400

abbrev default_api_port : ℕ
default_api_port = 18080

abbrev unwrap_or : Option ℕ → ℕ → ℕ
unwrap_or none port = port
unwrap_or (some port) default_port = port

unfoldable pub from_parts : HostKind → List ℕ → String → PortOverrides → Host
from_parts kind ip identifier ports = record {
  kind = kind;
  ip = ip;
  identifier = identifier;
  network_port = unwrap_or ports.network_port default_libp2p_network_port;
  blend_port = unwrap_or ports.blend_port default_blend_network_port;
  api_port = unwrap_or ports.api_port default_api_port;
  testing_http_port = unwrap_or ports.testing_http_port (default_api_port + 1);
}

unfoldable pub node_from_ip : List ℕ → String → PortOverrides → Host
unfolding from_parts
node_from_ip ip identifier ports = from_parts node ip identifier ports

pub data PeerRewriteError : Type 0 where
  host_peer_len_mismatch : (hosts peer_ids : ℕ) → PeerRewriteError
  host_index_out_of_bounds : (peer_idx hosts_len : ℕ) → PeerRewriteError
  peer_id_index_out_of_bounds : (peer_idx peer_ids_len : ℕ) → PeerRewriteError

module _ (v : Vendor) where
  -- `find_map` with the match on `Protocol::Udp(port)`
  unfoldable pub first_udp_port : List v.Protocol → Option ℕ
  first_udp_port [] = none
  first_udp_port (p ∷ rest) = elim (v.udp_port p) [
    | some port ↦ some port
    | none ↦ first_udp_port rest
  ]

  unfoldable pub extract_udp_port : v.Multiaddr → Option ℕ
  unfolding first_udp_port
  extract_udp_port addr = first_udp_port (v.iter addr)

  unfoldable pub find_matching_host : v.Multiaddr → List ℕ → Option ℕ
  unfolding extract_udp_port position
  find_matching_host addr original_ports = elim (extract_udp_port addr) [
    | none ↦ none
    | some port ↦ position port original_ports
  ]

  unfoldable pub rewritten_addr : Host → v.PeerId → v.Multiaddr
  rewritten_addr host peer_id =
      let at_ip = v.push v.empty_multiaddr (v.ip4 host.ip) in
      let at_port = v.push at_ip (v.udp host.network_port) in
      v.push (v.push at_port v.quic_v1) (v.p2p peer_id)

  unfoldable pub rewrite_peer : List Host → List v.PeerId → ℕ → Result v.Multiaddr PeerRewriteError
  unfolding rewritten_addr
  rewrite_peer hosts peer_ids peer_idx = do
    host ← ok_or (get_elem? hosts peer_idx) (host_index_out_of_bounds peer_idx (length hosts))
    peer_id ←
        ok_or (get_elem? peer_ids peer_idx) (peer_id_index_out_of_bounds peer_idx (length peer_ids))
    ok (rewritten_addr host peer_id)

  -- The inner loop, with its two `continue`s.
  unfoldable pub rewrite_peers :
      List ℕ
      → List Host
      → List v.PeerId
      → ℕ
      → List v.Multiaddr
      → Result (List v.Multiaddr) PeerRewriteError
  unfolding find_matching_host rewrite_peer
  rewrite_peers original_ports hosts peer_ids node_idx [] = ok []
  rewrite_peers original_ports hosts peer_ids node_idx (addr ∷ rest) =
      let later = rewrite_peers original_ports hosts peer_ids node_idx rest in
      elim (find_matching_host addr original_ports) [
        | none ↦ later
        | some peer_idx ↦
            if peer_idx == node_idx
            then later
            else rewrite_peer hosts peer_ids peer_idx >>= λ first.
                later >>= λ node_peers. ok (first ∷ node_peers)
      ]

  -- The outer loop.
  unfoldable pub rewrite_nodes :
      List ℕ
      → List Host
      → List v.PeerId
      → ℕ
      → List (List v.Multiaddr)
      → Result (List (List v.Multiaddr)) PeerRewriteError
  unfolding rewrite_peers
  rewrite_nodes original_ports hosts peer_ids node_idx [] = ok []
  rewrite_nodes original_ports hosts peer_ids node_idx (peers ∷ rest) = do
    node_peers ← rewrite_peers original_ports hosts peer_ids node_idx peers
    rewritten ← rewrite_nodes original_ports hosts peer_ids (suc node_idx) rest
    ok (node_peers ∷ rewritten)

  unfoldable pub rewrite_initial_peers :
      List (List v.Multiaddr)
      → List ℕ
      → List Host
      → List v.PeerId
      → Result (List (List v.Multiaddr)) PeerRewriteError
  unfolding rewrite_nodes
  rewrite_initial_peers templates original_ports hosts peer_ids =
      if length hosts == length peer_ids
      then rewrite_nodes original_ports hosts peer_ids 0 templates
      else err (host_peer_len_mismatch (length hosts) (length peer_ids))
