-- ===== src/Workflows/Inclusion/Capture.antt =====
-- What the capture task counts.
use logos_blockchain_testing.Prelude.{
  ℕ, suc, ◌+◌, ◌%◌, ◌^◌, ◌<◌, ◌≡◌, refl, Bool, true, false, Bool-cases, List, [], ◌∷◌, inl, inr,
  arith, if◌then◌else◌,
}
use logos_blockchain_testing.Vendor.{Vendor}
use logos_blockchain_testing.Config.Ledger.{Note}
use logos_blockchain_testing.Workflows.Inclusion.{
  Received, record_of, lagged, contains, capture_outputs, capture_tx_outputs, capture,
}

module _ (v : Vendor) (key_eq : Discrete v.ZkPublicKey) (tracked : List v.ZkPublicKey) where
  -- Some output pays to a tracked account.
  abbrev pub pays_tracked : List (Note v) → Bool
  pays_tracked [] = false
  pays_tracked (note ∷ rest) = if contains v key_eq tracked note.pk then true else pays_tracked rest

  -- The transactions that pay to a tracked account.
  abbrev pub paying : List (List (Note v)) → ℕ
  paying [] = 0
  paying (tx ∷ rest) = if pays_tracked tx then suc (paying rest) else paying rest

  -- The same in all blocks that do not follow the zero header.
  abbrev pub paying_blocks : List (Received v) → ℕ
  paying_blocks [] = 0
  paying_blocks (lagged skipped ∷ rest) = paying_blocks rest
  paying_blocks (record_of block ∷ rest) =
      if block.parent_is_genesis
      then paying_blocks rest
      else paying block.transactions + paying_blocks rest

  capture_outputs_lem :
      (tx : List (Note v)) (n : ℕ)
      → capture_outputs v key_eq tracked tx n ≡ (if pays_tracked tx then (n + 1) % 2 ^ 64 else n)
  unfolding capture_outputs
  capture_outputs_lem [] n = refl
  capture_outputs_lem (note ∷ rest) n = elim (Bool-cases (contains v key_eq tracked note.pk)) [
    | inl e ↦ rw e refl
    | inr e ↦ rw e (capture_outputs_lem rest n)
  ]

  capture_tx_outputs_lem :
      (txs : List (List (Note v))) (n : ℕ)
      → n < 2 ^ 64
      → capture_tx_outputs v key_eq tracked txs n ≡ (n + paying txs) % 2 ^ 64
  unfolding capture_tx_outputs
  capture_tx_outputs_lem [] n h = omega arith
  capture_tx_outputs_lem (tx ∷ rest) n h = elim (Bool-cases (pays_tracked tx)) [
    | inl e ↦
        rw (capture_outputs_lem tx n, e)
          (omega (arith, capture_tx_outputs_lem rest ((n + 1) % 2 ^ 64)))
    | inr e ↦ rw (capture_outputs_lem tx n, e) (capture_tx_outputs_lem rest n h)
  ]

  -- The counter grows by the number of the transactions with an output to a tracked account, each counted
  -- once, in the received blocks that do not follow the zero header; it wraps at 64 bits.
  pub capture_counts :
      (received : List (Received v)) (n : ℕ)
      → n < 2 ^ 64
      → capture v key_eq tracked received n ≡ (n + paying_blocks received) % 2 ^ 64
  unfolding capture
  capture_counts [] n h = omega arith
  capture_counts (lagged skipped ∷ rest) n h = capture_counts rest n h
  capture_counts (record_of block ∷ rest) n h = elim (Bool-cases block.parent_is_genesis) [
    | inl e ↦ rw e (capture_counts rest n h)
    | inr e ↦ rw e (
        rw (capture_tx_outputs_lem block.transactions n h)
          (omega (arith, capture_counts rest ((n + paying block.transactions) % 2 ^ 64))))
  ]
