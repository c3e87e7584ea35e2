-- ===== src/Examples/Vectors.antt =====
-- The theorems on keys and on the shape of the vectors.
use logos_blockchain_testing.Prelude.{
  ℕ, ◌≡◌, ◌≢◌, ◌↔◌, refl, some, none, List, [], ◌∷◌, ok, get_elem?,
}
use logos_blockchain_testing.Examples.Toy.{toy, id_of}
use logos_blockchain_testing.Os.{NodeId}
use logos_blockchain_testing.Wallet.{WalletAccount}
use logos_blockchain_testing.Config.Base.{
  GeneralBlendConfig, PreloadKmsBackendSettings, create_blend_config, create_kms_configs,
  add_account_keys, or_insert, zk, ed25519,
}
use logos_blockchain_testing.Config.Base.Keys.{HasKeys, create_kms_configs_lem}
use logos_blockchain_testing.Config.Invariants.{validate_node_vectors, validate_generated_vectors}
use logos_blockchain_testing.Config.Invariants.Counts.{
  validate_node_vectors_lem, validate_generated_vectors_lem,
}

abbrev blend : GeneralBlendConfig toy
blend = create_blend_config toy (id_of 1) 3000

abbrev account : WalletAccount toy
account = record { label = "a"; secret_key = id_of 7; value = 10 }

abbrev keys : PreloadKmsBackendSettings toy
keys = record {
  keys = add_account_keys toy (account ∷ []) (
      or_insert
        ((
          toy.hex (toy.zk_public_bytes (toy.to_public_key blend.secret_zk_key)),
          zk blend.secret_zk_key,
        )
          ∷ [])
        (toy.hex (toy.ed25519_public_bytes blend.signer)) (ed25519 blend.signer));
}

keys-created : get_elem? (create_kms_configs toy (blend ∷ []) (account ∷ [])) 0 ≡ some keys
unfolding create_kms_configs
keys-created = refl

create_kms_configs_lem_example : HasKeys toy (account ∷ []) blend keys
create_kms_configs_lem_example =
    create_kms_configs_lem toy (blend ∷ []) (account ∷ []) 0 blend keys refl keys-created

abbrev ids : List NodeId
ids = id_of 1 ∷ id_of 2 ∷ []

abbrev two : ℕ
two = 2

validate_node_vectors_lem_example :
    (validate_node_vectors 2 (some ids) none ≡ ok tt) ↔ ((two ≢ 0) × (two ≡ 2) × Unit {0})
validate_node_vectors_lem_example = validate_node_vectors_lem 2 (some ids) none

validate_generated_vectors_lem_example :
    (validate_generated_vectors 2 ids (3000 ∷ []) ≡ ok tt) ↔ ((two ≢ 0) × (two ≡ 2) × (1 ≡ two))
validate_generated_vectors_lem_example = validate_generated_vectors_lem 2 ids (3000 ∷ [])
