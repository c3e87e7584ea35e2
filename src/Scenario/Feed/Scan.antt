-- ===== src/Scenario/Feed/Scan.antt =====
-- One scan of the block feed: what it broadcasts, that a failed scan changes nothing, and that a
-- second scan of the same chain finds nothing.
use mathlib.Core.Path.{subst}
use mathlib.Core.List.{append_assoc, append-nil}
use logos_blockchain_testing.Prelude.{
  ℕ, zero, suc, ◌≡◌, refl, sym, ◌∙◌, inl, inr, true, List, [], ◌∷◌, ◌++◌, Result, ok, err, arith,
  Bool-cases,
}
use logos_blockchain_testing.Scenario.Feed.{
  Client, FeedError, BlockRecord, BlockScanner, has_seen, collect, ingest, drain, drain_found,
  catch_up,
}
use logos_blockchain_testing.Scenario.Feed.Order.{
  IsBatch, EndsAt, IsCollected, collect-IsCollected, has_seen-head, IsStack,
}

module _ (c : Client) where
  sent-drain :
      (stack : List (BlockRecord c)) (s : BlockScanner c) → (drain c stack s).sent ≡ s.sent ++ stack
  unfolding drain ingest
  sent-drain [] s = sym (append-nil s.sent)
  sent-drain (r ∷ stack) s = sent-drain stack _ ∙ append_assoc s.sent (r ∷ []) stack

  seen-cons :
      (h k : c.HeaderId) (seen : List c.HeaderId)
      → has_seen c h seen ≡ true
      → has_seen c h (k ∷ seen) ≡ true
  seen-cons h k seen e = elim (Bool-cases (c.same h k)) [ inl b ↦ rw b refl | inr b ↦ rw b e ]

  seen-drain :
      (stack : List (BlockRecord c)) (s : BlockScanner c) (h : c.HeaderId)
      → has_seen c h s.seen ≡ true
      → has_seen c h (drain c stack s).seen ≡ true
  unfolding drain ingest
  seen-drain [] s h e = e
  seen-drain (r ∷ stack) s h e = seen-drain stack _ h (seen-cons h r.0 s.seen e)

  -- After the drain the last header of the stack has been seen.
  end-drain :
      (stack : List (BlockRecord c)) (s : BlockScanner c) (tip : c.HeaderId)
      → EndsAt c tip stack
      → (stack ≡ [] → has_seen c tip s.seen ≡ true)
      → has_seen c tip (drain c stack s).seen ≡ true
  unfolding drain ingest
  end-drain [] s tip end h = h refl
  end-drain (r ∷ []) s tip end h =
      subst (λ t. has_seen c t (r.0 ∷ s.seen) ≡ true) end (has_seen-head c r.0 s.seen)
  end-drain (r ∷ q ∷ stack) s tip end h = end-drain (q ∷ stack) _ tip end (λ e. cc)

  start-IsStack : (tip : c.HeaderId) (seen : List c.HeaderId) → IsStack c tip tip seen []
  start-IsStack tip seen = record { pending = λ _ _. tt; fresh = tt; end = tt; start = λ _. refl }

  -- What a scan broadcasts that has found `r` in its first loop.
  found-broadcasts :
      (s : BlockScanner c) (tip : c.HeaderId) (height : ℕ)
      (r : Result (List (BlockRecord c)) (FeedError c) × BlockScanner c)
      → IsCollected c tip height s r
      → (drain_found c r.0 r.1).0 ≡ ok tt
      → (batch : List (BlockRecord c)) × (roots : List c.HeaderId) × ((drain_found c r.0 r.1).1.sent
          ≡ s.sent ++ batch)
        × IsBatch c tip height s.seen batch roots
        × (has_seen c tip (drain_found c r.0 r.1).1.seen ≡ true)
  found-broadcasts s tip height (err x, t) made h = cc
  found-broadcasts s tip height (ok stack, t) (roots, marked, batch) h =
      let u : BlockScanner c = record s { seen = roots ++ s.seen } in
      (
        stack,
        roots,
        rw marked (sent-drain stack u),
        batch,
        rw marked (end-drain stack u tip batch.end batch.nothing),
      )

  found_error :
      (s : BlockScanner c) (tip : c.HeaderId) (height : ℕ)
      (r : Result (List (BlockRecord c)) (FeedError c) × BlockScanner c) (x : FeedError c)
      → IsCollected c tip height s r
      → (drain_found c r.0 r.1).0 ≡ err x
      → (drain_found c r.0 r.1).1 ≡ s
  found_error s tip height (err y, t) x made h = made
  found_error s tip height (ok stack, t) x made h = cc

  -- A scan that succeeds appends one batch to the blocks broadcast, and has then seen the tip. No
  -- block of the batch was seen before. Each stands after its parent, or has a parent that was seen
  -- before, or is its own parent, or has the one parent whose block is not asked for because the
  -- height has run out. The batch has at most as many blocks as the chain is high, and ends with the
  -- block of the tip.
  pub catch_up_broadcasts :
      (s : BlockScanner c) (tip : c.HeaderId) (height : ℕ)
      → (catch_up c (ok (tip, height)) s).0 ≡ ok tt
      → (batch : List (BlockRecord c)) × (roots : List c.HeaderId) × ((catch_up c
            (ok (tip, height))
            s).1.sent
          ≡ s.sent ++ batch)
        × IsBatch c tip height s.seen batch roots
        × (has_seen c tip (catch_up c (ok (tip, height)) s).1.seen ≡ true)
  unfolding catch_up
  catch_up_broadcasts s tip height h =
      found-broadcasts s tip height (collect c height tip [] s)
        (collect-IsCollected c height tip tip height [] s (omega arith) (start-IsStack tip s.seen))
        h

  -- A scan that fails, on any answer of the node, leaves the scanner and what it has broadcast
  -- unchanged.
  pub catch_up_error :
      (info : Result (c.HeaderId × ℕ) c.Error) (s : BlockScanner c) (x : FeedError c)
      → (catch_up c info s).0 ≡ err x
      → (catch_up c info s).1 ≡ s
  unfolding catch_up
  catch_up_error (err y) s x h = refl
  catch_up_error (ok (tip, height)) s x h =
      found_error s tip height (collect c height tip [] s) x
        (collect-IsCollected c height tip tip height [] s (omega arith) (start-IsStack tip s.seen))
        h

  -- A scan whose tip was seen before changes nothing.
  seen-catch_up :
      (s : BlockScanner c) (tip : c.HeaderId) (height : ℕ)
      → has_seen c tip s.seen ≡ true
      → catch_up c (ok (tip, height)) s ≡ (ok tt, s)
  unfolding catch_up collect drain
  seen-catch_up s tip zero h = rw (h, catch_up, collect) refl
  seen-catch_up s tip (suc height) h = rw (h, catch_up, collect) refl

  -- After a scan that succeeds, a scan that gets the same tip succeeds, broadcasts nothing and
  -- changes nothing, whatever the height.
  pub catch_up_again :
      (s : BlockScanner c) (tip : c.HeaderId) (height height' : ℕ)
      → (catch_up c (ok (tip, height)) s).0 ≡ ok tt
      → catch_up c (ok (tip, height')) (catch_up c (ok (tip, height)) s).1
        ≡ (ok tt, (catch_up c (ok (tip, height)) s).1)
  catch_up_again s tip height height' h =
      let (batch, roots, _, _, seen) = catch_up_broadcasts s tip height h in
      seen-catch_up (catch_up c (ok (tip, height)) s).1 tip height' seen
