-- ===== src/Cfgsync/Repo.antt =====
-- testing-framework/tools/cfgsync_tf/src/repo.rs: the hosts that wait for a configuration, and the task
-- that answers them. A channel to a host is a `Sender`. The polls of `wait_for_hosts` that begin before
-- the timeout are a list: what the hosts announce before each of them. `late` is what they announce
-- between the last poll and the moment in which the task takes the map.
pub mod Registry
pub mod Answers
use mathlib.Core.Logic.{ite}
use logos_blockchain_testing.Prelude.{
  ℕ, Bool, true, false, Option, none, some, List, [], ◌∷◌, map, length, leb, if◌then◌else◌, String,
  Result, ok, err,
}
use logos_blockchain_testing.Cfgsync.{Host}

pub data RepoResponse (Config : Type 0) : Type 0 where
  config : Config → RepoResponse Config
  timeout : RepoResponse Config
  error : String → RepoResponse Config

module _ (host_eq : Discrete Host) where
  -- The derived `PartialEq`
  abbrev pub is_host : Host → Host → Bool
  is_host a b = ite (host_eq a b) true false

  -- `HashMap::get`
  unfoldable pub get {ℓ} : {A : Type ℓ} → List (Host × A) → Host → Option A
  get [] host = none
  get ((h, a) ∷ rest) host = if is_host h host then some a else get rest host

  abbrev pub config_or_error : {Config : Type 0} → Option Config → RepoResponse Config
  config_or_error none = error "missing config for host"
  config_or_error (some c) = config c

  module _ {Sender : Type 0} where
    -- `HashMap::insert`
    unfoldable pub register : List (Host × Sender) → Host → Sender → List (Host × Sender)
    register [] host reply_tx = (host, reply_tx) ∷ []
    register ((h, tx) ∷ rest) host reply_tx =
        let others = register rest host reply_tx in
        if is_host h host then (h, reply_tx) ∷ rest else (h, tx) ∷ others

    abbrev pub keys : List (Host × Sender) → List Host
    keys = map (λ (w : Host × Sender). w.0)

    unfoldable pub register_all : List (Host × Sender) → List (Host × Sender) → List (Host × Sender)
    unfolding register
    register_all waiting_hosts [] = waiting_hosts
    register_all waiting_hosts ((host, reply_tx) ∷ rest) =
        register_all (register waiting_hosts host reply_tx) rest

    -- With `wait_for_hosts_with_timeout`: whether the hosts were there in time, and the map then.
    unfoldable pub wait_for_hosts :
        ℕ → List (Host × Sender) → List (List (Host × Sender)) → Bool × List (Host × Sender)
    unfolding register_all
    wait_for_hosts n_hosts waiting_hosts [] = (false, waiting_hosts)
    wait_for_hosts n_hosts waiting_hosts (announced ∷ rest) =
        let now = register_all waiting_hosts announced in
        let later = wait_for_hosts n_hosts now rest in
        if leb n_hosts (length now) then (true, now) else later

  module _ {Sender Config : Type 0} where
    unfoldable pub send_configs_to_all_hosts :
        List (Host × Sender) → List (Host × Config) → List (Sender × RepoResponse Config)
    unfolding get
    send_configs_to_all_hosts waiting_hosts configs =
        map (λ (w : Host × Sender). (w.1, config_or_error (get configs w.0))) waiting_hosts

    unfoldable pub send_error_to_all :
        List (Host × Sender) → String → List (Sender × RepoResponse Config)
    send_error_to_all waiting_hosts message =
        map (λ (w : Host × Sender). (w.1, error message)) waiting_hosts

    unfoldable pub send_timeout_to_all : List (Host × Sender) → List (Sender × RepoResponse Config)
    send_timeout_to_all waiting_hosts = map (λ (w : Host × Sender). (w.1, timeout)) waiting_hosts

    abbrev pub send_all :
        List (Host × Sender)
        → Result (List (Host × Config)) String
        → List (Sender × RepoResponse Config)
    send_all waiting_hosts (ok configs) = send_configs_to_all_hosts waiting_hosts configs
    send_all waiting_hosts (err message) = send_error_to_all waiting_hosts message

    module _ (generate_node_configs : List Host → Result (List (Host × Config)) String) where
      -- What is sent, and to whom.
      unfoldable pub run :
          ℕ
          → List (List (Host × Sender))
          → List (Host × Sender)
          → List (Sender × RepoResponse Config)
      unfolding wait_for_hosts send_configs_to_all_hosts send_error_to_all send_timeout_to_all
      run n_hosts rounds late =
          let (announced, waiting_hosts) = wait_for_hosts n_hosts [] rounds in
          let taken = register_all waiting_hosts late in
          if announced
          then send_all taken (generate_node_configs (keys taken))
          else send_timeout_to_all taken
