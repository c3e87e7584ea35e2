-- ===== src/Workflows/Liveness/Samples.antt =====
-- The samples of the consensus liveness check: what each node yields, and in which order.
use mathlib.Core.Path.{subst}
use mathlib.Core.List.{append_assoc, append-nil}
use logos_blockchain_testing.Prelude.{
  ℕ, zero, suc, ◌+◌, ◌<◌, ◌≡◌, ◌⊎◌, refl, ap, sym, ◌∙◌, true, false, ◌==◌, ltb, some, List, [], ◌∷◌,
  ◌++◌, String, concat, decimal, length, get_elem?, All, ok, err, arith, inl, inr, Result-cases,
  Bool-cases,
}
use logos_blockchain_testing.Workflows.Liveness.{
  ConsensusInfoSample, NodeSample, ConsensusLivenessIssue, request_failed, LivenessCheck, Client,
  push_sample, attempts, collect_from, collect_results, request_retries,
}

abbrev pub node_label : ℕ → String
node_label idx = concat "node-" (decimal idx)

abbrev pub sample_of : {HeaderId : Type 0} → ℕ → ConsensusInfoSample HeaderId → NodeSample HeaderId
sample_of idx sample = record { label = node_label idx; height = sample.height; tip = sample.tip }

abbrev pub issue_of : {Error : Type 0} → ℕ → Error → ConsensusLivenessIssue Error
issue_of idx x = request_failed (node_label idx) x

module _ {HeaderId Error : Type 0} where
  -- The attempts below the number all fail.
  abbrev pub Errs : Client HeaderId Error → ℕ → Type 0
  Errs client k = (j : ℕ) → j < k → (x : Error) × (client j ≡ err x)

  -- The answer to the first of the attempts that does not fail.
  abbrev pub FirstAnswer : Client HeaderId Error → ConsensusInfoSample HeaderId → Type 0
  FirstAnswer client sample =
      (k : ℕ) × (k < request_retries) × Errs client k × (client k ≡ ok sample)

  -- All attempts fail, the last one with the error.
  abbrev pub LastError : Client HeaderId Error → Error → Type 0
  LastError client x = (k : ℕ) × (suc k ≡ request_retries) × Errs client k × (client k ≡ err x)

  -- Every node, from number `idx` on and in order, has yielded its first answer as a sample, or its
  -- last error as an issue, and there is nothing else.
  abbrev pub AreResults :
      ℕ
      → List (Client HeaderId Error)
      → List (NodeSample HeaderId)
      → List (ConsensusLivenessIssue Error)
      → Type 0
  AreResults idx [] samples issues = (samples ≡ []) × (issues ≡ [])
  AreResults idx (client ∷ rest) samples issues =
      ((sample : ConsensusInfoSample HeaderId) × (more : List (NodeSample HeaderId)) × FirstAnswer
          client sample
        × (samples ≡ sample_of idx sample ∷ more)
        × AreResults (suc idx) rest more issues)
      ⊎ ((x : Error) × (more : List (ConsensusLivenessIssue Error)) × LastError client x
          × (issues ≡ issue_of idx x ∷ more)
          × AreResults (suc idx) rest samples more)

  Errs-suc :
      (client : Client HeaderId Error) (k : ℕ) (x : Error)
      → Errs client k
      → client k ≡ err x
      → Errs client (suc k)
  Errs-suc client k x before failed j h = elim (Bool-cases (ltb j k)) [
    | inl below ↦ before j (ground (arith, below))
    | inr above ↦
        let same : k ≡ j = ground (arith, above) in (x, subst (λ i. client i ≡ err x) same failed)
  ]

  -- What the attempts at one node make of the check.
  abbrev Outcome :
      ℕ
      → Client HeaderId Error
      → LivenessCheck HeaderId Error
      → LivenessCheck HeaderId Error
      → Type 0
  Outcome idx client check after =
      ((sample : ConsensusInfoSample HeaderId) × FirstAnswer client sample
        × (after ≡ push_sample check (node_label idx) sample))
      ⊎ ((x : Error) × LastError client x
          × (after ≡ record check { issues = check.issues ++ issue_of idx x ∷ [] }))

  attempts-Outcome :
      (remaining attempt idx : ℕ) (client : Client HeaderId Error)
      (check : LivenessCheck HeaderId Error)
      → suc remaining + attempt ≡ request_retries
      → Errs client attempt
      → Outcome idx client check (attempts (suc remaining) attempt (node_label idx) client check)
  unfolding attempts
  attempts-Outcome zero attempt idx client check e before =
      let last : (suc attempt == request_retries) ≡ true = ground (arith, e) in
      elim (Result-cases (client attempt)) [
        | inl (sample, answered) ↦
            inl
              (sample, (attempt, omega (arith, e), before, answered), rw (answered, attempts) refl)
        | inr (x, failed) ↦
            inr (x, (attempt, omega (arith, e), before, failed), rw (failed, attempts, last) refl)
      ]
  attempts-Outcome (suc remaining) attempt idx client check e before =
      let more : (suc attempt == request_retries) ≡ false = ground (arith, e) in
      elim (Result-cases (client attempt)) [
        | inl (sample, answered) ↦
            inl
              (sample, (attempt, omega (arith, e), before, answered), rw (answered, attempts) refl)
        | inr (x, failed) ↦
            rw (failed, attempts, more)
              (attempts-Outcome remaining (suc attempt) idx client check (omega (arith, e))
                (Errs-suc client attempt x before failed))
      ]

  -- The check after the nodes have been asked.
  abbrev Collected :
      ℕ
      → List (Client HeaderId Error)
      → LivenessCheck HeaderId Error
      → LivenessCheck HeaderId Error
      → Type 0
  Collected idx clients check after =
      (samples : List (NodeSample HeaderId)) × (issues : List (ConsensusLivenessIssue Error))
      × AreResults idx clients samples issues
      × (after.samples ≡ check.samples ++ samples)
      × (after.issues ≡ check.issues ++ issues)

  collect_from-Collected :
      (idx : ℕ) (clients : List (Client HeaderId Error)) (check : LivenessCheck HeaderId Error)
      → Collected idx clients check (collect_from idx clients check)
  unfolding collect_from
  collect_from-Collected idx [] check =
      ([], [], (refl, refl), sym (append-nil check.samples), sym (append-nil check.issues))
  collect_from-Collected idx (client ∷ rest) check =
      let next = attempts request_retries 0 (node_label idx) client check in
      let (samples, issues, are, e, e') = collect_from-Collected (suc idx) rest next in
      elim (attempts-Outcome 14 0 idx client check refl (λ j h. absurd (omega arith))) [
        | inl (sample, first, made) ↦ (
          sample_of idx sample ∷ samples,
          issues,
          inl (sample, samples, first, refl, are),
          e
              ∙ ap (λ (t : LivenessCheck HeaderId Error). t.samples ++ samples) made
              ∙ append_assoc check.samples (sample_of idx sample ∷ []) samples,
          e' ∙ ap (λ (t : LivenessCheck HeaderId Error). t.issues ++ issues) made,
        )
        | inr (x, last, made) ↦ (
          samples,
          issue_of idx x ∷ issues,
          inr (x, issues, last, refl, are),
          e ∙ ap (λ (t : LivenessCheck HeaderId Error). t.samples ++ samples) made,
          e'
              ∙ ap (λ (t : LivenessCheck HeaderId Error). t.issues ++ issues) made
              ∙ append_assoc check.issues (issue_of idx x ∷ []) issues,
        )
      ]

  -- Every node yields, in the order of the nodes and under its own label, either one sample, with the
  -- height and the tip of its first answer within fifteen attempts, or one issue, with the error of
  -- the last of fifteen attempts that all fail. There are no other samples and issues.
  pub collect_results_lem :
      (clients : List (Client HeaderId Error))
      → AreResults 0 clients (collect_results clients).samples (collect_results clients).issues
  unfolding collect_results
  collect_results_lem clients =
      let (samples, issues, are, e, e') =
        collect_from-Collected 0 clients (record { samples = []; issues = [] }) in
      subst (λ ss. AreResults 0 clients ss (collect_results clients).issues) (sym e)
        (subst (λ is. AreResults 0 clients samples is) (sym e') are)

  -- The node answers one of its attempts.
  abbrev pub Answers : Client HeaderId Error → Type 0
  Answers client =
      (k : ℕ) × (sample : ConsensusInfoSample HeaderId) × (k < request_retries)
      × (client k ≡ ok sample)

  Answers-not-LastError :
      (client : Client HeaderId Error) (x : Error) → Answers client → LastError client x → ⊥
  Answers-not-LastError client x (k, sample, below, answered) (last, e, before, failed) =
      elim (Bool-cases (ltb k last)) [
        | inl earlier ↦ let (y, lost) = before k (ground (arith, earlier)) in cc
        | inr late ↦
            let same : k ≡ last = ground (arith, late, below, e) in
            let there : client last ≡ ok sample = subst (λ i. client i ≡ ok sample) same answered in
            cc
      ]

  -- The first answer of every node stands at its number.
  abbrev pub AreSampled : ℕ → List (Client HeaderId Error) → List (NodeSample HeaderId) → Type 0
  AreSampled idx clients samples =
      (i : ℕ) (client : Client HeaderId Error)
      → get_elem? clients i ≡ some client
      → (sample : ConsensusInfoSample HeaderId) × FirstAnswer client sample
        × (get_elem? samples i ≡ some (sample_of (idx + i) sample))

  AreResults-answered :
      (idx : ℕ) (clients : List (Client HeaderId Error)) (samples : List (NodeSample HeaderId))
      (issues : List (ConsensusLivenessIssue Error))
      → AreResults idx clients samples issues
      → All Answers clients
      → (issues ≡ []) × (length samples ≡ length clients) × AreSampled idx clients samples
  AreResults-answered idx [] samples issues (none_sampled, none_failed) h =
      (none_failed, ap (λ l. length l) none_sampled, λ i client e. cc)
  AreResults-answered idx (client ∷ rest) samples issues (inr (x, more, last, e, are)) h =
      absurd (Answers-not-LastError client x h.0 last)
  AreResults-answered idx (client ∷ rest) samples issues (inl (sample, more, first, e, are)) h =
      let (none_failed, size, each) = AreResults-answered (suc idx) rest more issues are h.1 in
      (none_failed, rw e (ap suc size), rw e (shifted sample more first each))
    where
      shifted :
          (sample : ConsensusInfoSample HeaderId) (more : List (NodeSample HeaderId))
          → FirstAnswer client sample
          → AreSampled (suc idx) rest more
          → AreSampled idx (client ∷ rest) (sample_of idx sample ∷ more)
      shifted sample more first each zero other e =
          let same : client ≡ other = cc in
          let here : idx + 0 ≡ idx = omega arith in
          (sample, subst (λ c. FirstAnswer c sample) same first, rw here refl)
      shifted sample more first each (suc i) other e =
          let shift : idx + suc i ≡ suc idx + i = omega arith in rw shift (each i other e)

  -- Where every node answers one of its fifteen attempts, there is no issue, and as many samples as
  -- nodes. The one at place `i` has the label of node `i`, and the height and the tip of its first
  -- answer.
  pub collect_results_answered :
      (clients : List (Client HeaderId Error))
      → All Answers clients
      → ((collect_results clients).issues ≡ [])
        × (length (collect_results clients).samples ≡ length clients)
        × AreSampled 0 clients (collect_results clients).samples
  collect_results_answered clients h =
      AreResults-answered 0 clients (collect_results clients).samples
        (collect_results clients).issues (collect_results_lem clients) h
