-- ===== src/Notify/Chain.antt =====
-- A worker that follows the retries of a callback: each delivery that publishes its next attempt is
-- followed by that attempt.
use stask_service.Prelude.{
  ℕ, zero, suc, ◌+◌, ◌-◌, ◌≤◌, ◌<◌, ◌==◌, Text, true, false, if◌then◌else◌, length, List, [], ◌∷◌,
  ◌++◌, ◌≡◌, refl, ◌⊎◌, inl, inr, ap, arith, length-append,
}
use stask_service.Service.{World, Message, notify_task}
use stask_service.Notify.{Libraries, Settings, deliver, delay_of}
use stask_service.Notify.Followup.{deliver-Next}

module _ (lib : Libraries) (s : Settings) (tid : Text) where
  abbrev delivered : ℕ → World → World
  delivered attempt w = (deliver lib s tid attempt w).1

  -- with fuel for so many deliveries
  unfoldable pub chain : ℕ → ℕ → World → World
  chain zero attempt w = w
  chain (suc fuel) attempt w =
      let v = delivered attempt w in
      let rest = chain fuel (attempt + 1) v in if length v.sent == length w.sent then v else rest

  abbrev most : World → ℕ
  most w = w.config.callback_max_attempts

  same_length : (a b : List Message) → a ≡ b → length a ≡ length b
  same_length a b h = ap length h

  -- whether the chain ends with this delivery
  ends :
      (attempt : ℕ) (w : World)
      → ((length (delivered attempt w).sent == length w.sent) ≡ true)
        ⊎ (((length (delivered attempt w).sent == length w.sent) ≡ false) × (attempt < most w))
  ends attempt w = elim (deliver-Next lib s tid attempt w).2 [
    | inl e ↦ inl (ground (arith, same_length (delivered attempt w).sent w.sent e))
    | inr h ↦ inr (
      ground (
        arith,
        same_length (delivered attempt w).sent
            (w.sent ++ notify_task tid (attempt + 1) (delay_of attempt) ∷ []) h.0,
        length-append w.sent (notify_task tid (attempt + 1) (delay_of attempt) ∷ []),
      ),
      h.1,
    )
  ]

  chain_bound :
      (fuel attempt : ℕ) (w : World)
      → length (chain fuel attempt w).posts ≤ length w.posts + suc (most w - attempt)
  unfolding chain
  chain_bound zero attempt w = omega arith
  chain_bound (suc fuel) attempt w =
      let step = deliver-Next lib s tid attempt w in
      let rest = chain_bound fuel (attempt + 1) (delivered attempt w) in
      elim (ends attempt w) [
        | inl e ↦ rw e (omega (arith, step.0))
        | inr h ↦ rw h.0 (omega (arith, step.0, step.1, rest, h.1))
      ]

  more_fuel :
      (fuel n attempt : ℕ) (w : World)
      → fuel ≤ n
      → most w ≤ attempt + fuel
      → chain (suc n) attempt w ≡ chain (suc fuel) attempt w
  unfolding chain
  more_fuel zero n attempt w le enough = elim (ends attempt w) [
    | inl e ↦ rw e refl
    | inr h ↦ absurd (omega (arith, h.1))
  ]
  more_fuel (suc fuel) zero attempt w le enough = absurd (omega arith)
  more_fuel (suc fuel) (suc n) attempt w le enough =
      let same = (deliver-Next lib s tid attempt w).1 in
      elim (ends attempt w) [
        | inl e ↦ rw e refl
        | inr h ↦ rw h.0 (
            more_fuel fuel n (attempt + 1) (delivered attempt w) (omega arith)
              (omega (arith, same)))
      ]

-- However the calls end: with one unit of fuel more than attempts are left the chain of retries of a
-- callback has ended, so that more fuel changes nothing, and it sends at most one callback more than
-- attempts are left.
pub chain-ends :
    (lib : Libraries) (s : Settings) (tid : Text) (fuel n attempt : ℕ) (w : World)
    → fuel ≤ n
    → w.config.callback_max_attempts ≤ attempt + fuel
    → (chain lib s tid (suc n) attempt w ≡ chain lib s tid (suc fuel) attempt w)
      × (length (chain lib s tid (suc n) attempt w).posts
          ≤ length w.posts + suc (w.config.callback_max_attempts - attempt))
chain-ends lib s tid fuel n attempt w le enough =
    (more_fuel lib s tid fuel n attempt w le enough, chain_bound lib s tid (suc n) attempt w)
