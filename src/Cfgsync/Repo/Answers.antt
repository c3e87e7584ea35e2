-- ===== src/Cfgsync/Repo/Answers.antt =====
-- Who is answered by the repository, and with what.
use mathlib.Core.Path.{ap₂}
use logos_blockchain_testing.Prelude.{
  ℕ, suc, ◌≤◌, ◌≡◌, refl, ap, sym, ◌∙◌, inl, inr, Bool, true, false, ◌&&◌, Option, some, List, [],
  ◌∷◌, ◌++◌, map, length, take, ltb, leb, All, arith, Bool-cases, if◌then◌else◌, String, Result, ok,
  err,
}
use logos_blockchain_testing.Cfgsync.{Host}
use logos_blockchain_testing.Cfgsync.Repo.{
  RepoResponse, timeout, error, config_or_error, get, keys, register_all, wait_for_hosts, send_all,
  send_configs_to_all_hosts, send_error_to_all, send_timeout_to_all, run,
}
use logos_blockchain_testing.Cfgsync.Repo.Registry.{
  count, latest, one_if, length-register_all, register_all-append, register_all-count,
  register_all-latest,
}

abbrev pub joined {ℓ} : {A : Type ℓ} → List (List A) → List A
joined [] = []
joined (xs ∷ xss) = xs ++ joined xss

module _ (host_eq : Discrete Host) {Config : Type 0} where
  -- What a host is sent.
  abbrev pub response_to : Bool → Result (List (Host × Config)) String → Host → RepoResponse Config
  response_to false result host = timeout
  response_to true (ok configs) host = config_or_error host_eq (get host_eq configs host)
  response_to true (err message) host = error message

module _ (host_eq : Discrete Host) {Sender : Type 0} where
  -- There was a poll, and by the last one enough hosts had announced themselves.
  abbrev pub is_complete : ℕ → List (Host × Sender) → List (List (Host × Sender)) → Bool
  is_complete n w rounds =
      ltb 0 (length rounds) && leb n (length (register_all host_eq w (joined rounds)))

  -- The wait ends after some of the polls, and after all of them if it fails.
  abbrev Waits : ℕ → List (Host × Sender) → List (List (Host × Sender)) → ℕ → Type 0
  Waits n w rounds k =
      let (ready, waiting) = wait_for_hosts host_eq n w rounds in
      (k ≤ length rounds)
      × (waiting ≡ register_all host_eq w (joined (take k rounds)))
      × (ready ≡ is_complete n w rounds)
      × (is_complete n w rounds ≡ false → k ≡ length rounds)

  is_complete-cons :
      (n : ℕ) (w a : List (Host × Sender)) (rest : List (List (Host × Sender)))
      → leb n (length (register_all host_eq w a)) ≡ false
      → is_complete n w (a ∷ rest) ≡ is_complete n (register_all host_eq w a) rest
  unfolding register_all
  is_complete-cons n w a [] short =
      ap (λ x. leb n (length x)) (register_all-append host_eq w a []) ∙ short
  is_complete-cons n w a (b ∷ rest) short =
      ground (arith, ap length (register_all-append host_eq w a (b ++ joined rest)))

  wait_for_hosts-Waits :
      (n : ℕ) (w : List (Host × Sender)) (rounds : List (List (Host × Sender)))
      → (k : ℕ) × Waits n w rounds k
  unfolding wait_for_hosts register_all
  wait_for_hosts-Waits n w [] = (0, (omega arith, refl, refl, λ e. refl))
  wait_for_hosts-Waits n w (a ∷ rest) =
      let now = register_all host_eq w a in
      let all = ap length (register_all-append host_eq w a (joined rest)) in
      let (k, (le, same, ready, last)) = wait_for_hosts-Waits n now rest in
      elim (Bool-cases (leb n (length now))) [
        | inl enough ↦ (
          1,
          (
            omega arith,
            rw enough (sym (register_all-append host_eq w a [])),
            ground (arith, enough, all, length-register_all host_eq now (joined rest)),
            λ e. ground (arith, enough, e, all, length-register_all host_eq now (joined rest)),
          ),
        )
        | inr short ↦ (
          suc k,
          (
            omega (arith, le),
            rw short (same ∙ sym (register_all-append host_eq w a (joined (take k rest)))),
            rw short (ready ∙ sym (is_complete-cons n w a rest short)),
            λ e. ap suc (last (sym (is_complete-cons n w a rest short) ∙ e)),
          ),
        )
      ]

  module _ {Config : Type 0} where
    abbrev pub delivered : Sender × RepoResponse Config → Option Sender × RepoResponse Config
    delivered (tx, response) = (some tx, response)

    -- The last channel of the host of an entry, and its answer.
    abbrev pub due :
        (Host → RepoResponse Config)
        → List (Host × Sender)
        → Host × Sender
        → Option Sender × RepoResponse Config
    due reply heard (host, tx) = (latest host_eq heard host, reply host)

    abbrev sent : (Host → RepoResponse Config) → Host × Sender → Sender × RepoResponse Config
    sent reply (host, tx) = (tx, reply host)

    answers-eq :
        (reply : Host → RepoResponse Config) (heard w : List (Host × Sender))
        → All (λ (e : Host × Sender). latest host_eq heard e.0 ≡ some e.1) w
        → map delivered (map (sent reply) w) ≡ map (due reply heard) w
    answers-eq reply heard [] all = refl
    answers-eq reply heard ((h, tx) ∷ w) all =
        let first : delivered (sent reply (h, tx)) ≡ due reply heard (h, tx) = rw all.0 refl in
        ap₂ ◌∷◌ first (answers-eq reply heard w all.1)

    send_all-eq :
        (result : Result (List (Host × Config)) String) (taken : List (Host × Sender))
        → send_all host_eq taken result ≡ map (sent (response_to host_eq true result)) taken
    unfolding send_configs_to_all_hosts send_error_to_all
    send_all-eq (ok configs) taken = refl
    send_all-eq (err message) taken = refl

    -- What `run` sends once it has the map.
    abbrev replies :
        (List Host → Result (List (Host × Config)) String)
        → Bool
        → List (Host × Sender)
        → List (Sender × RepoResponse Config)
    replies generate announced taken =
        if announced
        then send_all host_eq taken (generate (keys host_eq taken))
        else send_timeout_to_all host_eq taken

    replies-eq :
        (generate : List Host → Result (List (Host × Config)) String) (announced : Bool)
        (taken : List (Host × Sender))
        → replies generate announced taken
          ≡ map (sent (response_to host_eq announced (generate (keys host_eq taken)))) taken
    unfolding send_timeout_to_all
    replies-eq generate true taken = send_all-eq (generate (keys host_eq taken)) taken
    replies-eq generate false taken = refl

    -- The wait succeeds exactly where there is a poll by the last of which enough hosts have announced
    -- themselves; it fails only after all polls. Each host that has announced itself when the map is
    -- taken, and no other, is answered, once, on the channel that it announced last: with its
    -- configuration or an error after a successful wait, and with a timeout after a failed one.
    pub run-answers :
        (generate : List Host → Result (List (Host × Config)) String) (n : ℕ)
        (rounds : List (List (Host × Sender))) (late : List (Host × Sender))
        → let complete = is_complete n [] rounds in
          (k : ℕ) × (k ≤ length rounds)
          × (complete ≡ false → k ≡ length rounds)
          × (let heard = joined (take k rounds) ++ late in
              (taken : List (Host × Sender)) × ((h : Host)
                → count host_eq taken h ≡ one_if host_eq (latest host_eq heard h))
              × (map delivered (run host_eq generate n rounds late)
                  ≡ map
                      (due (response_to host_eq complete (generate (keys host_eq taken))) heard)
                      taken))
    unfolding run send_timeout_to_all
    run-answers generate n rounds late =
        let (k, (le, same, ready, last)) = wait_for_hosts-Waits n [] rounds in
        let heard = joined (take k rounds) ++ late in
        let taken = register_all host_eq [] heard in
        let is_taken = register_all-append host_eq [] (joined (take k rounds)) late in
        let result = generate (keys host_eq taken) in
        let answers : run host_eq generate n rounds late
            ≡ map (sent (response_to host_eq (is_complete n [] rounds) result)) taken =
          ap₂ (replies generate) ready (ap (λ w. register_all host_eq w late) same ∙ sym is_taken)
          ∙ replies-eq generate (is_complete n [] rounds) taken in
        (
          k,
          le,
          last,
          (
            taken,
            register_all-count host_eq heard,
            ap (map delivered) answers
                ∙ answers-eq _ heard taken (register_all-latest host_eq heard),
          ),
        )
