-- ===== src/Scenario/Feed.antt =====
-- testing-framework/core/src/scenario/runtime/block_feed.rs: the scanner that reads the chain of one
-- node from its tip back to a block it has seen, and broadcasts the new blocks. What the extra
-- request logs after a decoding failure is left out: it changes no state.
pub mod Order
pub mod Scan
use logos_blockchain_testing.Prelude.{
  ℕ, zero, suc, ◌+◌, ◌%◌, ◌^◌, ◌≡◌, ◌↔◌, Bool, true, false, ◌||◌, Option, none, some, List, [], ◌∷◌,
  ◌++◌, Result, ok, err, if◌then◌else◌,
}

-- The node that is asked, and what the scanner reads of its headers and blocks.
pub record Client : Type 1 where
  pub HeaderId : Type 0
  -- `==` on header ids
  pub same : HeaderId → HeaderId → Bool
  pub same_iff : (a b : HeaderId) → (same a b ≡ true) ↔ (a ≡ b)
  pub Block : Type 0
  -- `block.header().parent()`
  pub parent : Block → HeaderId
  -- `block.transactions().len()`
  pub transactions : Block → ℕ
  pub Error : Type 0
  pub storage_block : HeaderId → Result (Option Block) Error

module _ (c : Client) where
  pub data FeedError : Type 0 where
    request : c.Error → FeedError
    missing_block : FeedError

  abbrev pub BlockRecord : Type 0
  BlockRecord = c.HeaderId × c.Block

  -- The scanner with its feed: the set of seen headers, the blocks broadcast so far, in order, and
  -- the counter of the statistics.
  pub record BlockScanner : Type 0 where
    pub seen : List c.HeaderId
    pub sent : List BlockRecord
    pub total_transactions : ℕ

  abbrev pub has_seen : c.HeaderId → List c.HeaderId → Bool
  has_seen h [] = false
  has_seen h (k ∷ rest) = if c.same h k then true else has_seen h rest

  -- The first loop of `catch_up`: the height that remains, the cursor and the stack. Returns the stack
  -- or the error, with the scanner as it is then.
  unfoldable pub collect :
      ℕ
      → c.HeaderId
      → List BlockRecord
      → BlockScanner
      → Result (List BlockRecord) FeedError × BlockScanner
  collect zero cursor stack s =
      if has_seen cursor s.seen
      then (ok stack, s)
      else (ok stack, record s { seen = cursor ∷ s.seen })
  collect (suc remaining) cursor stack s =
      if has_seen cursor s.seen then (ok stack, s) else (elim (c.storage_block cursor) [
        | err e ↦ (err (request e), s)
        | ok none ↦ (err missing_block, s)
        | ok (some block) ↦
            let next = collect remaining (c.parent block) ((cursor, block) ∷ stack) s in
            if has_seen (c.parent block) s.seen || c.same (c.parent block) cursor
            then (ok ((cursor, block) ∷ stack), s)
            else next
      ])

  -- `BlockFeed::ingest`. The counter is a `u64` that wraps.
  unfoldable pub ingest : BlockScanner → BlockRecord → BlockScanner
  ingest s (header, block) = record s {
    sent = s.sent ++ (header, block) ∷ [];
    total_transactions = (s.total_transactions + c.transactions block) % 2 ^ 64;
  }

  -- The second loop of `catch_up`.
  unfoldable pub drain : List BlockRecord → BlockScanner → BlockScanner
  unfolding ingest
  drain [] s = s
  drain ((header, block) ∷ stack) s =
      let t = ingest s (header, block) in drain stack (record t { seen = header ∷ t.seen })

  -- What follows the first loop: an error returns, a stack is drained.
  abbrev pub drain_found :
      Result (List BlockRecord) FeedError
      → BlockScanner
      → Result (Unit {0}) FeedError × BlockScanner
  drain_found (err e) s = (err e, s)
  drain_found (ok stack) s = (ok tt, drain stack s)

  -- `catch_up`, with the answer of `consensus_info`: the tip and the height.
  unfoldable pub catch_up :
      Result (c.HeaderId × ℕ) c.Error → BlockScanner → Result (Unit {0}) FeedError × BlockScanner
  unfolding collect drain
  catch_up (err e) s = (err (request e), s)
  catch_up (ok (tip, height)) s = let (found, s') = collect height tip [] s in drain_found found s'
