-- ===== src/Cfgsync/Repo/Registry.antt =====
-- The map of the waiting hosts: one entry for each host that announced itself, with its last channel.
use mathlib.Core.Logic.{if_pos, if_neg}
use logos_blockchain_testing.Prelude.{
  ℕ, ◌+◌, ◌≤◌, ◌≡◌, ◌≢◌, ◌⊎◌, refl, ap, sym, ◌∙◌, inl, inr, true, false, Option, none, some, List,
  [], ◌∷◌, ◌++◌, length, All, All-mono, All-both, arith, Bool-cases, Option-cases, if◌then◌else◌,
}
use logos_blockchain_testing.Cfgsync.{Host}
use logos_blockchain_testing.Cfgsync.Repo.{is_host, get, register, register_all}

module _ (host_eq : Discrete Host) where
  is_host-cases :
      (a b : Host)
      → ((a ≡ b) × (is_host host_eq a b ≡ true)) ⊎ ((a ≢ b) × (is_host host_eq a b ≡ false))
  is_host-cases a b = elim (host_eq a b) [
    | yes p ↦ inl (p, rw (if_pos _ p) refl)
    | no p ↦ inr (p, rw (if_neg _ p) refl)
  ]

  is_host_ne : (a b : Host) → a ≢ b → is_host host_eq a b ≡ false
  is_host_ne a b ne = rw (if_neg _ ne) refl

  is_host_refl : (a : Host) → is_host host_eq a a ≡ true
  is_host_refl a = rw (if_pos _ refl) refl

  is_host_apart : (a b h : Host) → a ≢ b → is_host host_eq a h ≡ true → is_host host_eq b h ≡ false
  is_host_apart a b h ne e = elim (is_host-cases a h) [
    | inl (p, _) ↦ is_host_ne b h (λ q. ne (p ∙ sym q))
    | inr (_, other) ↦ ground (arith, e, other)
  ]

  is_host_swap : (a b : Host) → is_host host_eq b a ≡ false → is_host host_eq a b ≡ false
  is_host_swap a b e = elim (is_host-cases a b) [
    | inl (p, _) ↦ ground (arith, e, is_host_refl a, ap (λ x. is_host host_eq x a) p)
    | inr (_, other) ↦ other
  ]

  module _ {Sender : Type 0} where
    -- How often the host stands in the map.
    abbrev pub count : List (Host × Sender) → Host → ℕ
    count [] host = 0
    count ((h, tx) ∷ rest) host = (if is_host host_eq h host then 1 else 0) + count rest host

    -- No host stands in it twice.
    abbrev IsMap : List (Host × Sender) → Type 0
    IsMap [] = Unit
    IsMap ((h, tx) ∷ rest) = (count rest h ≡ 0) × IsMap rest

    count-register :
        (w : List (Host × Sender)) (k : Host) (tx : Sender) (h : Host)
        → count (register host_eq w k tx) h ≡ (elim (get host_eq w k) [
          | none ↦ (if is_host host_eq k h then 1 else 0) + count w h
          | some _ ↦ count w h
        ])
    unfolding register get
    count-register [] k tx h = refl
    count-register ((k0, tx0) ∷ w) k tx h = elim (Bool-cases (is_host host_eq k0 k)) [
      | inl same ↦ ground (arith, same)
      | inr other ↦ ground (arith, other, count-register w k tx h)
    ]

    register-IsMap :
        (w : List (Host × Sender)) (k : Host) (tx : Sender)
        → IsMap w
        → IsMap (register host_eq w k tx)
    unfolding register
    register-IsMap [] k tx m = (refl, tt)
    register-IsMap ((k0, tx0) ∷ w) k tx m = elim (is_host-cases k0 k) [
      | inl (p, same) ↦ rw same m
      | inr (p, other) ↦ rw other (
        ground (
          arith,
          m.0,
          count-register w k tx k0,
          is_host_ne k k0 (λ q. p (sym q)),
          Option-cases (get host_eq w k),
        ),
        register-IsMap w k tx m.1,
      )
    ]

    get-register :
        (w : List (Host × Sender)) (k : Host) (tx : Sender) (h : Host)
        → get host_eq (register host_eq w k tx) h
          ≡ (if is_host host_eq k h then some tx else get host_eq w h)
    unfolding register get
    get-register [] k tx h = refl
    get-register ((k0, tx0) ∷ w) k tx h = elim (is_host-cases k0 k) [
      | inl (p, same) ↦ ground (arith, same, ap (λ x. is_host host_eq x h) p)
      | inr (p, other) ↦ ground (arith, other, get-register w k tx h, is_host_apart k0 k h p)
    ]

    length-register :
        (w : List (Host × Sender)) (k : Host) (tx : Sender)
        → length w ≤ length (register host_eq w k tx)
    unfolding register
    length-register [] k tx = omega arith
    length-register ((k0, tx0) ∷ w) k tx = ground (arith, length-register w k tx)

    pub length-register_all :
        (w more : List (Host × Sender)) → length w ≤ length (register_all host_eq w more)
    unfolding register_all
    length-register_all w [] = omega arith
    length-register_all w ((k, tx) ∷ more) =
        omega (arith, length-register w k tx, length-register_all (register host_eq w k tx) more)

    pub register_all-append :
        (w front back : List (Host × Sender))
        → register_all host_eq w (front ++ back)
          ≡ register_all host_eq (register_all host_eq w front) back
    unfolding register_all
    register_all-append w [] back = refl
    register_all-append w ((k, tx) ∷ front) back =
        register_all-append (register host_eq w k tx) front back

    register_all-IsMap :
        (w more : List (Host × Sender)) → IsMap w → IsMap (register_all host_eq w more)
    unfolding register_all
    register_all-IsMap w [] m = m
    register_all-IsMap w ((k, tx) ∷ more) m =
        register_all-IsMap (register host_eq w k tx) more (register-IsMap w k tx m)

    -- The channel with which the host announced itself last.
    abbrev pub latest : List (Host × Sender) → Host → Option Sender
    latest [] host = none
    latest ((k, tx) ∷ rest) host = elim (latest rest host) [
      | none ↦ if is_host host_eq k host then some tx else none
      | some later ↦ some later
    ]

    get-register_all :
        (w more : List (Host × Sender)) (h : Host)
        → get host_eq (register_all host_eq w more) h
          ≡ (elim (latest more h) [ none ↦ get host_eq w h | some tx ↦ some tx ])
    unfolding register_all
    get-register_all w [] h = refl
    get-register_all w ((k, tx) ∷ more) h = ground (
      arith,
      get-register_all (register host_eq w k tx) more h,
      get-register w k tx h,
      Option-cases (latest more h),
    )

    abbrev pub one_if : Option Sender → ℕ
    one_if none = 0
    one_if (some tx) = 1

    count-get :
        (w : List (Host × Sender)) (h : Host) → IsMap w → count w h ≡ one_if (get host_eq w h)
    unfolding get
    count-get [] h m = refl
    count-get ((k, tx) ∷ w) h m = elim (is_host-cases k h) [
      | inl (p, same) ↦ ground (arith, same, m.0, ap (count w) p)
      | inr (_, other) ↦ ground (arith, other, count-get w h m.1)
    ]

    count-zero :
        (w : List (Host × Sender)) (k : Host)
        → count w k ≡ 0
        → All (λ (e : Host × Sender). is_host host_eq e.0 k ≡ false) w
    count-zero [] k e = tt
    count-zero ((h, tx) ∷ w) k e = (ground (arith, e), count-zero w k (omega (arith, e)))

    get-IsMap :
        (w : List (Host × Sender))
        → IsMap w
        → All (λ (e : Host × Sender). get host_eq w e.0 ≡ some e.1) w
    unfolding get
    get-IsMap [] m = tt
    get-IsMap ((k, tx) ∷ w) m = (
      rw (is_host_refl k) refl,
      All-mono
          (λ (e : Host × Sender). (is_host host_eq e.0 k ≡ false) × (get host_eq w e.0 ≡ some e.1))
          _ w (λ e h. ground (arith, h.0, h.1, is_host_swap k e.0 h.0))
          (All-both _ _ w (count-zero w k m.0) (get-IsMap w m.1)),
    )

    -- The map holds each host that announced itself once, with its last channel, and no other.
    pub register_all-count :
        (more : List (Host × Sender)) (h : Host)
        → count (register_all host_eq [] more) h ≡ one_if (latest more h)
    unfolding get
    register_all-count more h =
        count-get (register_all host_eq [] more) h (register_all-IsMap [] more tt)
        ∙ ap one_if (get-register_all [] more h)
        ∙ ground (arith, Option-cases (latest more h))

    pub register_all-latest :
        (more : List (Host × Sender))
        → All (λ (e : Host × Sender). latest more e.0 ≡ some e.1) (register_all host_eq [] more)
    unfolding get
    register_all-latest more =
        All-mono (λ (e : Host × Sender). get host_eq (register_all host_eq [] more) e.0 ≡ some e.1)
          _ (register_all host_eq [] more)
          (λ e h. ground (arith, h, get-register_all [] more e.0, Option-cases (latest more e.0)))
          (get-IsMap (register_all host_eq [] more) (register_all-IsMap [] more tt))
