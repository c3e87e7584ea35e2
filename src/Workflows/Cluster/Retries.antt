-- ===== src/Workflows/Cluster/Retries.antt =====
-- How many calls a submission makes, and when it succeeds.
use mathlib.Core.Path.{subst}
use mathlib.Core.Option.{some-injective}
use logos_blockchain_testing.Prelude.{
  ℕ, zero, suc, ◌+◌, ◌*◌, ◌≤◌, ◌<◌, ◌≡◌, refl, sym, Bool, true, false, Option, none, some, List, [],
  ◌∷◌, length, get_elem?, ok, err, inl, inr, Option-cases, Result-cases, Holds, ◌&&◌, ◌==◌, arith,
  if◌then◌else◌,
}
use logos_blockchain_testing.Workflows.Cluster.{
  Cluster, ClusterError, failed, exhausted, Tries, last_error, submit_retries, submit_rounds,
  submit_transaction_via_cluster, try_clients,
}

-- A shuffle keeps the clients, and their number.
pub record IsShuffle {Client Tx Error : Type 0} (cluster : Cluster Client Tx Error) : Type 0 where
  pub length-shuffle : (n : ℕ) (cs : List Client) → length (cluster.shuffle n cs) ≡ length cs
  pub shuffle-elem :
      (n : ℕ) (cs : List Client) (i : ℕ) (c : Client)
      → get_elem? cs i ≡ some c
      → (j : ℕ) × (get_elem? (cluster.shuffle n cs) j ≡ some c)

abbrev pub is_none : {A : Type 0} → Option A → Bool
is_none none = true
is_none (some a) = false

abbrev pub is_exhausted : {Error : Type 0} → ClusterError Error → Bool
is_exhausted exhausted = true
is_exhausted (failed e) = false

module _ {Client Tx Error : Type 0} (cluster : Cluster Client Tx Error) (tx : Tx) where
  -- A client accepts the transaction in the last of at most `most` calls; or all of these fail.
  abbrev Ends : ℕ → Tries Error → Bool × Tries Error → Type 0
  Ends most s (true, after) =
      (k : ℕ) × (client : Client) × (after.calls ≡ suc k)
      × (k < s.calls + most)
      × (s.calls ≤ k)
      × (cluster.submit_transaction k client tx ≡ ok tt)
  Ends most s (false, after) =
      (after.calls ≡ s.calls + most) × (is_none after.last_err ≡ (is_none s.last_err && most == 0))

  -- What ends within `more` calls after `first` failed ones ends within their sum.
  Ends-after :
      (first more : ℕ) (s next : Tries Error) (r : Bool × Tries Error)
      → next.calls ≡ s.calls + first
      → is_none next.last_err ≡ (is_none s.last_err && first == 0)
      → Ends more next r
      → Ends (first + more) s r
  Ends-after first more s next (true, after) e1 e2 (k, client, calls, lt, le, accepted) =
      (k, client, calls, omega arith, omega arith, accepted)
  Ends-after first more s next (false, after) e1 e2 (calls, last) = (omega arith, ground arith)

  try_clients-Ends :
      (cs : List Client) (s : Tries Error) → Ends (length cs) s (try_clients cluster cs tx s)
  unfolding try_clients
  try_clients-Ends [] s = (omega arith, ground arith)
  try_clients-Ends (c ∷ cs) s = elim (Result-cases (cluster.submit_transaction s.calls c tx)) [
    | inl (tt, e) ↦ rw (e, try_clients) (s.calls, c, refl, omega arith, omega arith, e)
    | inr (x, e) ↦
        rw (e, try_clients)
          (subst
            (λ n.
              Ends n s
                (try_clients cluster cs tx (record { calls = suc s.calls; last_err = some x })))
            (omega arith)
            (Ends-after 1 (length cs) s (record { calls = suc s.calls; last_err = some x }) _
              (omega arith) (ground arith)
              (try_clients-Ends cs (record { calls = suc s.calls; last_err = some x }))))
  ]

  Ends-round :
      (m k : ℕ) (s : Tries Error) (round rest : Bool × Tries Error)
      → Ends m s round
      → Ends k round.1 rest
      → Ends (m + k) s (if round.0 then (true, round.1) else rest)
  Ends-round m k s (true, after) rest (call, client, calls, lt, le, accepted) more =
      (call, client, calls, omega arith, le, accepted)
  Ends-round m k s (false, after) rest (calls, last) more =
      Ends-after m k s after rest calls last more

  result_lem :
      (cs : List Client) (calls : ℕ) (r : Bool × Tries Error)
      → Ends (submit_retries * length cs) (record { calls = calls; last_err = none }) r
      → Holds
          (λ (done : Unit {0}).
            (k : ℕ) × (client : Client) × (r.1.calls ≡ suc k)
            × (k < calls + 5 * length cs)
            × (calls ≤ k)
            × (cluster.submit_transaction k client tx ≡ ok tt))
          (λ e. (r.1.calls ≡ calls + 5 * length cs) × (is_exhausted e ≡ (length cs == 0)))
          (if r.0 then ok tt else err (last_error r.1.last_err))
  result_lem cs calls (true, after) h = h
  result_lem cs calls (false, after) (e, last) = elim (Option-cases after.last_err) [
    | inl n ↦ rw n (e, ground (arith, n))
    | inr (x, n) ↦ rw n (e, ground (arith, n))
  ]

  try_clients-accepts :
      (cs : List Client) (i : ℕ) (c : Client) (s : Tries Error)
      → get_elem? cs i ≡ some c
      → ((k : ℕ) → cluster.submit_transaction k c tx ≡ ok tt)
      → (try_clients cluster cs tx s).0 ≡ true
  unfolding try_clients
  try_clients-accepts [] i c s e accepts = cc
  try_clients-accepts (x ∷ cs) zero c s e accepts =
      let yes' : cluster.submit_transaction s.calls x tx ≡ ok tt =
        subst (λ y. cluster.submit_transaction s.calls y tx ≡ ok tt) (sym (some-injective x c e))
          (accepts s.calls) in
      rw (yes', try_clients) refl
  try_clients-accepts (x ∷ cs) (suc i) c s e accepts =
      elim (Result-cases (cluster.submit_transaction s.calls x tx)) [
        | inl (done, ok') ↦ rw (ok', try_clients) refl
        | inr (failure, no') ↦ rw (no', try_clients) (try_clients-accepts cs i c _ e accepts)
      ]

  module _ (fair : IsShuffle cluster) where
    submit_rounds-Ends :
        (n attempt : ℕ) (cs : List Client) (s : Tries Error)
        → Ends (n * length cs) s (submit_rounds cluster n attempt cs tx s)
    unfolding submit_rounds
    submit_rounds-Ends zero attempt cs s = (ground arith, ground arith)
    submit_rounds-Ends (suc n) attempt cs s =
        let order = cluster.shuffle (suc attempt) cs in
        let round = try_clients cluster order tx s in
        let ends : Ends (length cs) s round =
          subst (λ m. Ends m s round) (fair.length-shuffle _ cs) (try_clients-Ends order s) in
        let more : Ends (n * length cs) round.1
            (submit_rounds cluster n (suc attempt) order tx round.1) =
          subst (λ m. Ends (n * m) round.1 (submit_rounds cluster n (suc attempt) order tx round.1))
            (fair.length-shuffle _ cs) (submit_rounds-Ends n (suc attempt) order round.1) in
        subst (λ m. Ends m s (submit_rounds cluster (suc n) attempt cs tx s)) (grind arith)
          (Ends-round (length cs) (n * length cs) s round _ ends more)

    -- The calls of a submission number `calls` to `after - 1`. Where it succeeds, they are at most five
    -- for each client and a client accepts the transaction in the last of them. Where it fails, they are
    -- five for each client; the error is that of a client, or, without clients, that all are exhausted.
    pub submit_transaction_via_cluster_ends :
        (cs : List Client) (calls : ℕ)
        → let (result, after) = submit_transaction_via_cluster cluster cs tx calls in
          Holds
            (λ (done : Unit {0}).
              (k : ℕ) × (client : Client) × (after ≡ suc k)
              × (k < calls + 5 * length cs)
              × (calls ≤ k)
              × (cluster.submit_transaction k client tx ≡ ok tt))
            (λ e. (after ≡ calls + 5 * length cs) × (is_exhausted e ≡ (length cs == 0)))
            result
    unfolding submit_transaction_via_cluster
    submit_transaction_via_cluster_ends cs calls =
        let order = cluster.shuffle 0 cs in
        let s : Tries Error = record { calls = calls; last_err = none } in
        result_lem cs calls (submit_rounds cluster submit_retries 0 order tx s) (
          subst
            (λ m. Ends (submit_retries * m) s (submit_rounds cluster submit_retries 0 order tx s))
            (fair.length-shuffle 0 cs) (submit_rounds-Ends submit_retries 0 order s))

    -- A client that always accepts the transaction makes every submission to it and others succeed.
    pub submit_transaction_via_cluster_total :
        (cs : List Client) (calls i : ℕ) (c : Client)
        → get_elem? cs i ≡ some c
        → ((k : ℕ) → cluster.submit_transaction k c tx ≡ ok tt)
        → (submit_transaction_via_cluster cluster cs tx calls).0 ≡ ok tt
    unfolding submit_transaction_via_cluster submit_rounds
    submit_transaction_via_cluster_total cs calls i c at accepts =
        let (j, at') = fair.shuffle-elem 0 cs i c at in
        let (k, at'') = fair.shuffle-elem 1 (cluster.shuffle 0 cs) j c at' in
        rw (try_clients-accepts (cluster.shuffle 1 (cluster.shuffle 0 cs)) k c _ at'' accepts) refl
