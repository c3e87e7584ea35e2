-- ===== src/Scenario/Feed/Order.antt =====
-- The block feed broadcasts every new block once, after its parent.
use mathlib.Core.Path.{subst}
use logos_blockchain_testing.Prelude.{
  ℕ, zero, suc, ◌+◌, ◌≤◌, ◌≡◌, refl, ◌⊎◌, inl, inr, true, false, List, [], ◌∷◌, ◌++◌, length, All,
  arith, Bool-cases, Option-cases, Result-cases, Result, ok, err,
}
use logos_blockchain_testing.Scenario.Feed.{
  Client, FeedError, BlockRecord, BlockScanner, has_seen, collect,
}

module _ (c : Client) where
  -- Each block stands after its parent, or its parent was seen before, or it is its own parent.
  abbrev pub IsParentFirst : List c.HeaderId → List (BlockRecord c) → Type 0
  IsParentFirst seen [] = Unit
  IsParentFirst seen ((header, block) ∷ rest) =
      ((has_seen c (c.parent block) seen ≡ true) ⊎ (c.parent block ≡ header))
      × IsParentFirst (header ∷ seen) rest

  abbrev pub IsFresh : List c.HeaderId → List (BlockRecord c) → Type 0
  IsFresh seen = All (λ (r : BlockRecord c). has_seen c r.0 seen ≡ false)

  -- The last block of the list has the header.
  abbrev pub EndsAt : c.HeaderId → List (BlockRecord c) → Type 0
  EndsAt tip [] = Unit
  EndsAt tip (r ∷ []) = r.0 ≡ tip
  EndsAt tip (r ∷ s ∷ rest) = EndsAt tip (s ∷ rest)

  -- What the stack lacks is the block at the cursor.
  abbrev IsPending : c.HeaderId → List (BlockRecord c) → Type 0
  IsPending cursor stack =
      (seen : List c.HeaderId) → has_seen c cursor seen ≡ true → IsParentFirst seen stack

  same_refl : (h : c.HeaderId) → c.same h h ≡ true
  same_refl h = (c.same_iff h h).1 refl

  pub has_seen-head : (h : c.HeaderId) (seen : List c.HeaderId) → has_seen c h (h ∷ seen) ≡ true
  has_seen-head h seen = rw (same_refl h) refl

  push-IsPending :
      (cursor : c.HeaderId) (block : c.Block) (stack : List (BlockRecord c))
      → IsPending cursor stack
      → IsPending (c.parent block) ((cursor, block) ∷ stack)
  push-IsPending cursor block stack h seen e =
      (inl e, h (cursor ∷ seen) (has_seen-head cursor seen))

  -- The stack so far, for a scan from `tip`.
  pub record IsStack (tip cursor : c.HeaderId) (seen : List c.HeaderId)
      (stack : List (BlockRecord c)) : Type 0 where
    pub pending : IsPending cursor stack
    pub fresh : IsFresh seen stack
    -- the scan has gone on from the last block, or stands at the tip
    pub end : EndsAt tip stack
    pub start : stack ≡ [] → cursor ≡ tip

  -- What one scan of the chain finds: the batch, and at most one header that is marked as seen
  -- because the height has run out.
  pub record IsBatch (tip : c.HeaderId) (height : ℕ) (seen : List c.HeaderId)
      (stack : List (BlockRecord c)) (roots : List c.HeaderId) : Type 0 where
    pub parent_first : IsParentFirst (roots ++ seen) stack
    pub fresh : IsFresh seen stack
    pub bound : length stack ≤ height
    pub roots_bound : length roots ≤ 1
    pub rooted : (roots ≡ []) ⊎ (length stack ≡ height)
    pub end : EndsAt tip stack
    pub nothing : stack ≡ [] → has_seen c tip (roots ++ seen) ≡ true

  push-IsStack :
      (tip cursor : c.HeaderId) (seen : List c.HeaderId) (stack : List (BlockRecord c))
      (block : c.Block)
      → has_seen c cursor seen ≡ false
      → IsStack tip cursor seen stack
      → IsStack tip (c.parent block) seen ((cursor, block) ∷ stack)
  push-IsStack tip cursor seen [] block e h = record {
    pending = push-IsPending cursor block [] h.pending;
    fresh = (e, h.fresh);
    end = h.start refl;
    start = λ eq. cc;
  }
  push-IsStack tip cursor seen (r ∷ stack) block e h = record {
    pending = push-IsPending cursor block (r ∷ stack) h.pending;
    fresh = (e, h.fresh);
    end = h.end;
    start = λ eq. cc;
  }

  seen-IsBatch :
      (tip cursor : c.HeaderId) (height : ℕ) (seen : List c.HeaderId) (stack : List (BlockRecord c))
      → length stack ≤ height
      → has_seen c cursor seen ≡ true
      → IsStack tip cursor seen stack
      → IsBatch tip height seen stack []
  seen-IsBatch tip cursor height seen stack b e h = record {
    parent_first = h.pending seen e;
    fresh = h.fresh;
    bound = b;
    roots_bound = omega arith;
    rooted = inl refl;
    end = h.end;
    nothing = λ eq. rw (← (h.start eq)) e;
  }

  -- A block that is its own parent ends the scan.
  self-IsBatch :
      (tip cursor : c.HeaderId) (height : ℕ) (seen : List c.HeaderId) (stack : List (BlockRecord c))
      (block : c.Block)
      → suc (length stack) ≤ height
      → has_seen c cursor seen ≡ false
      → c.same (c.parent block) cursor ≡ true
      → IsStack tip cursor seen stack
      → IsBatch tip height seen ((cursor, block) ∷ stack) []
  self-IsBatch tip cursor height seen stack block b new self h =
      let next = push-IsStack tip cursor seen stack block new h in
      record {
        parent_first = (
          inr ((c.same_iff (c.parent block) cursor).0 self),
          h.pending (cursor ∷ seen) (has_seen-head cursor seen),
        );
        fresh = next.fresh;
        bound = b;
        roots_bound = omega arith;
        rooted = inl refl;
        end = next.end;
        nothing = λ eq. cc;
      }

  -- What the first loop leaves: with a stack, one batch and the header that it has marked, if any; with
  -- an error, the scanner as it was.
  abbrev pub IsCollected :
      c.HeaderId
      → ℕ
      → BlockScanner c
      → Result (List (BlockRecord c)) (FeedError c) × BlockScanner c
      → Type 0
  IsCollected tip height s (ok stack, t) =
      (roots : List c.HeaderId) × (t ≡ record s { seen = roots ++ s.seen })
      × IsBatch tip height s.seen stack roots
  IsCollected tip height s (err x, t) = t ≡ s

  pub collect-IsCollected :
      (remaining : ℕ) (tip cursor : c.HeaderId) (height : ℕ) (stack : List (BlockRecord c))
      (s : BlockScanner c)
      → remaining + length stack ≡ height
      → IsStack tip cursor s.seen stack
      → IsCollected tip height s (collect c remaining cursor stack s)
  unfolding collect
  collect-IsCollected zero tip cursor height stack s e h =
      elim (Bool-cases (has_seen c cursor s.seen)) [
        | inl old ↦
            rw old ([], refl, seen-IsBatch tip cursor height s.seen stack (omega arith) old h)
        | inr new ↦ rw new (
          cursor ∷ [],
          refl,
          record {
            parent_first = h.pending (cursor ∷ s.seen) (has_seen-head cursor s.seen);
            fresh = h.fresh;
            bound = omega arith;
            roots_bound = omega arith;
            rooted = inr (omega arith);
            end = h.end;
            nothing = λ eq.
                subst (λ t. has_seen c t (cursor ∷ s.seen) ≡ true) (h.start eq)
                  (has_seen-head cursor s.seen);
          },
        )
      ]
  collect-IsCollected (suc remaining) tip cursor height stack s e h =
      elim (Bool-cases (has_seen c cursor s.seen)) [
        | inl old ↦
            rw old ([], refl, seen-IsBatch tip cursor height s.seen stack (omega arith) old h)
        | inr new ↦
            let next = λ (block : c.Block).
              collect-IsCollected remaining tip (c.parent block) height ((cursor, block) ∷ stack) s
                (omega arith) (push-IsStack tip cursor s.seen stack block new h) in
            elim (Result-cases (c.storage_block cursor)) [
              | inr (x, failed) ↦ rw (new, failed) refl
              | inl (found, replied) ↦ (elim (Option-cases found) [
                | inl gone ↦ rw (new, replied, gone) refl
                | inr (block, there) ↦ (elim (Bool-cases (has_seen c (c.parent block) s.seen)) [
                  | inl old ↦
                      rw (new, replied, there, old)
                        (
                          [],
                          refl,
                          seen-IsBatch tip (c.parent block) height s.seen ((cursor, block) ∷ stack)
                              (omega arith) old (push-IsStack tip cursor s.seen stack block new h),
                        )
                  | inr fresh ↦ (elim (Bool-cases (c.same (c.parent block) cursor)) [
                    | inl self ↦
                        rw (new, replied, there, fresh, self)
                          (
                            [],
                            refl,
                            self-IsBatch tip cursor height s.seen stack block (omega arith) new self
                                h,
                          )
                    | inr other ↦ rw (new, replied, there, fresh, other) (next block)
                  ])
                ])
              ])
            ]
      ]
