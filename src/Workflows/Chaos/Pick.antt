-- ===== src/Workflows/Chaos/Pick.antt =====
-- The choice of a target: the wait for the cooldowns ends, and none is left when a target is taken.
use logos_blockchain_testing.Prelude.{
  ℕ, zero, suc, ◌+◌, ◌-◌, ◌≤◌, ◌<◌, ◌==◌, ◌≡◌, ◌≢◌, refl, ltb, true, false, none, some, List, [],
  ◌∷◌, length, get_elem?, Result, ok, inl, inr, All, Bool-cases, Option-cases, arith,
}
use logos_blockchain_testing.Config.Base.{Duration}
use logos_blockchain_testing.Workflows.Chaos.{
  Chance, ChaosError, Clock, Cooldowns, Instant, Target, available, choose_target, is_ready,
  get_ready, next_ready, pick_loop, pick_target, sleep,
}

-- `choose` gives an element of a slice, and nothing only for an empty one. An offset is at most the
-- spread, up to the rounding of the floating-point numbers.
pub record IsFair {Error : Type 0} (rounding : Duration) (chance : Chance Error) : Type 0 where
  pub choose-elem :
      (n : ℕ) (ts : List Target) (t : Target)
      → chance.choose n ts ≡ some t
      → (i : ℕ) × (get_elem? ts i ≡ some t)
  pub choose-ne-none : (n : ℕ) (t : Target) (ts : List Target) → chance.choose n (t ∷ ts) ≢ none
  pub offset-le : (n : ℕ) (spread : Duration) → chance.offset n spread ≤ spread + rounding

-- No cooldown is still to come.
abbrev pub AllReady : Instant → Cooldowns → Type 0
AllReady now = All (λ c. c.1 ≤ now)

-- The number of the cooldowns that are still to come.
abbrev waiting : Instant → Cooldowns → ℕ
waiting now [] = 0
waiting now (c ∷ rest) = let n = waiting now rest in elim (ltb now c.1) [ true ↦ suc n | false ↦ n ]

waiting-le : (now : Instant) (cs : Cooldowns) → waiting now cs ≤ length cs
waiting-le now [] = omega arith
waiting-le now (c ∷ rest) = ground (arith, waiting-le now rest)

waiting_mono :
    (now later : Instant) (cs : Cooldowns) → now ≤ later → waiting later cs ≤ waiting now cs
waiting_mono now later [] h = omega arith
waiting_mono now later (c ∷ rest) h = ground (arith, waiting_mono now later rest h)

next_ready-none : (now : Instant) (cs : Cooldowns) → next_ready now cs ≡ none → AllReady now cs
unfolding next_ready
next_ready-none now [] h = tt
next_ready-none now (c ∷ rest) h = elim (Bool-cases (ltb now c.1)) [
  | inl late ↦ cc (rw late at h)
  | inr early ↦ (ground arith, next_ready-none now rest (rw early at h))
]

next_ready-lt :
    (now : Instant) (cs : Cooldowns) (r : Instant) → next_ready now cs ≡ some r → now < r
unfolding next_ready
next_ready-lt now [] r h = cc
next_ready-lt now (c ∷ rest) r h = elim (Option-cases (next_ready now rest)) [
  | inl none_later ↦ ground (arith, none_later)
  | inr (later, e) ↦ ground (arith, next_ready-lt now rest later e)
]

-- After a wait for the earliest of them, fewer are still to come.
waiting_next :
    (now later : Instant) (cs : Cooldowns) (r : Instant)
    → next_ready now cs ≡ some r
    → r ≤ later
    → waiting later cs < waiting now cs
unfolding next_ready
waiting_next now later [] r h le = cc
waiting_next now later (c ∷ rest) r h le = elim (Option-cases (next_ready now rest)) [
  | inl none_later ↦ ground (arith, none_later, waiting_mono now later rest)
  | inr (other, e) ↦ ground (
    arith,
    next_ready-lt now rest other e,
    waiting_next now later rest other e,
    waiting_mono now later rest,
  )
]

-- An element of what is kept of a list is one of the list.
cons-elem :
    (t x : Target) (kept ts : List Target) (i : ℕ)
    → ((k : ℕ) → get_elem? kept k ≡ some t → (j : ℕ) × (get_elem? ts j ≡ some t))
    → get_elem? (x ∷ kept) i ≡ some t
    → (j : ℕ) × (get_elem? (x ∷ ts) j ≡ some t)
cons-elem t x kept ts zero sub e = (0, e)
cons-elem t x kept ts (suc i) sub e = let (j, found) = sub i e in (suc j, found)

available-sub :
    (cs : Cooldowns) (now : Instant) (t : Target) (ts : List Target) (i : ℕ)
    → get_elem? (available cs now ts) i ≡ some t
    → (j : ℕ) × (get_elem? ts j ≡ some t)
unfolding available
available-sub cs now t [] i e = cc
available-sub cs now t (x ∷ ts) i e = elim (Bool-cases (is_ready now (get_ready cs x))) [
  | inl ready ↦ cons-elem t x _ ts i (available-sub cs now t ts) (rw ready at e)
  | inr waits ↦ (let (j, found) = available-sub cs now t ts i (rw waits at e) in (suc j, found))
]

-- One of the targets is taken, when no cooldown is still to come.
abbrev pub Picks :
    {Error : Type 0}
    → List Target
    → Cooldowns
    → Clock
    → Result (Target × Clock) (ChaosError Error)
    → Type 0
Picks ts cs clock r =
    (t : Target) × (after : Clock) × (i : ℕ) × (r ≡ ok (t, after))
    × (get_elem? ts i ≡ some t)
    × (clock.now ≤ after.now)
    × AllReady after.now cs

module _ {Error : Type 0} {rounding : Duration} {chance : Chance Error}
    (fair : IsFair rounding chance) where
  choose_target-Picks :
      (t : Target) (ts : List Target) (cs : Cooldowns) (clock : Clock)
      → AllReady clock.now cs
      → Picks (t ∷ ts) cs clock (choose_target chance (t ∷ ts) cs clock)
  unfolding choose_target
  choose_target-Picks t ts cs clock ready =
      elim (Option-cases (chance.choose clock.calls (available cs clock.now (t ∷ ts)))) [
        | inr (choice, e) ↦
            (let (i, at) = fair.choose-elem _ _ choice e in
              let (j, found) = available-sub cs clock.now choice (t ∷ ts) i at in
              (
                choice,
                record clock { calls = suc clock.calls },
                j,
                rw (e, choose_target) refl,
                found,
                omega arith,
                ready,
              ))
        | inl empty ↦ (elim (Option-cases (chance.choose (suc clock.calls) (t ∷ ts))) [
          | inr (choice, e) ↦
              (let (j, found) = fair.choose-elem _ _ choice e in
                (
                  choice,
                  record clock { calls = suc (suc clock.calls) },
                  j,
                  rw (empty, choose_target) (rw e),
                  found,
                  omega arith,
                  ready,
                ))
          | inl never ↦ absurd (fair.choose-ne-none _ t ts never)
        ])
      ]

  pick_loop-Picks :
      (fuel : ℕ) (t : Target) (ts : List Target) (cs : Cooldowns) (clock : Clock)
      → waiting clock.now cs < fuel
      → Picks (t ∷ ts) cs clock (pick_loop chance fuel (t ∷ ts) cs clock)
  unfolding pick_loop sleep
  pick_loop-Picks zero t ts cs clock h = absurd (omega arith)
  pick_loop-Picks (suc fuel) t ts cs clock h = elim (Option-cases (next_ready clock.now cs)) [
    | inl none_later ↦
        rw (none_later, pick_loop)
          (choose_target-Picks t ts cs clock (next_ready-none clock.now cs none_later))
    | inr (r, e) ↦
        (let after = next_ready-lt clock.now cs r e in
          let waits : (r - clock.now == 0) ≡ false = ground arith in
          let fewer =
            waiting_next clock.now (clock.now + (r - clock.now) + chance.late clock.calls) cs r e
              (omega arith) in
          let (picked, late, i, eq, found, le, ready) =
            pick_loop-Picks fuel t ts cs (sleep chance (r - clock.now) clock) (omega arith) in
          (picked, late, i, rw (e, pick_loop) (rw waits eq), found, omega arith, ready))
  ]

  -- The choice ends, with one of the targets, at an instant when no target has a cooldown left.
  pub pick_target-Picks :
      (t : Target) (ts : List Target) (cs : Cooldowns) (clock : Clock)
      → Picks (t ∷ ts) cs clock (pick_target chance (t ∷ ts) cs clock)
  unfolding pick_target
  pick_target-Picks t ts cs clock =
      pick_loop-Picks (suc (length cs)) t ts cs clock (omega (arith, waiting-le clock.now cs))
