-- ===== src/Gate.antt =====
-- app/services/slots.py: the three layers of slots, as the service uses them. The expiry of the
-- keys is left out: `reset` and the recalibration that calls it repair what an expiry loses.
pub mod Growth
use stask_service.Prelude.{ℕ, Text, Bool, true, false, ltb, leb, ◌==◌, if◌then◌else◌, List, [], ◌∷◌}
use stask_service.Prelude.Int.{ℤ, pos, exceeds}
use stask_service.Rows.{TaskData}
use stask_service.Slots.{
  SlotKey, token_slot, model_token_slot, global_slot, Counters, write, incr, decr, decr_floor,
  acquire3, release3,
}
use stask_service.Service.{
  World, Service, Layer, token, model_token, global, pure, external, send_off, quietly, catch,
  ◌>>=◌, ◌>>◌,
}

-- LUA_SLOT_ACQUIRE
unfoldable pub acquire1 : SlotKey → ℕ → Counters → Bool × Counters
acquire1 k limit c =
    let taken = incr k c in if exceeds (taken k) limit then (false, decr k taken) else (true, taken)

abbrev on_counters {ℓ} : {A : Type ℓ} → (Counters → A × Counters) → World → A × World
on_counters f w = let r = f w.counters in (r.0, record w { counters = r.1 })

unfoldable pub acquire : Text → ℕ → Service Bool
unfolding acquire1
acquire token_hash limit = external (on_counters (acquire1 (token_slot token_hash) limit))

unfoldable pub acquire_layered : Text → Text → ℕ → ℕ → ℕ → Service ℕ
acquire_layered token_hash model limit_per_token limit_model_token limit_global = external (
    on_counters (
      acquire3 (token_slot token_hash) (model_token_slot token_hash model) (global_slot model)
        limit_per_token limit_model_token limit_global))

unfoldable pub release_layered : Text → Text → ℕ → Service (Unit {0})
release_layered token_hash model mask =
    if mask == 0
    then pure tt
    else quietly (
        send_off (λ w. record w {
          counters =
              release3 (token_slot token_hash) (model_token_slot token_hash model)
                (global_slot model) mask w.counters;
        }))

abbrev pub is_blank : Text → Bool
is_blank [] = true
is_blank (c ∷ s) = false

unfoldable pub release_for_task : TaskData → Service (Unit {0})
release_for_task d =
    if is_blank d.token_hash
    then pure tt
    else release_layered d.token_hash d.slot_model d.slot_flags

unfoldable pub release : Text → Service (Unit {0})
release token_hash =
    quietly (send_off (λ w. record w { counters = decr_floor (token_slot token_hash) w.counters }))

unfoldable pub current : SlotKey → Service ℤ
current k = external (λ w. (w.counters k, w))

-- `limit > 0 and used >= limit`
abbrev is_full : ℕ → ℤ → Bool
is_full limit (pos used) = if ltb 0 limit then leb limit used else false
is_full limit used = false

first_full : ℕ → ℕ → ℕ → ℤ → ℤ → ℤ → Layer
first_full l₁ l₂ l₃ u₁ u₂ u₃ =
    if is_full l₁ u₁
    then token
    else if is_full l₂ u₂
    then model_token
    else if is_full l₃ u₃
    then global
    else token

unfoldable pub binding_layer : Text → Text → ℕ → ℕ → ℕ → Service Layer
unfolding first_full
binding_layer token_hash model l₁ l₂ l₃ =
    catch
      (do
        u₁ ← current (token_slot token_hash)
        u₂ ← current (model_token_slot token_hash model)
        u₃ ← current (global_slot model)
        pure (first_full l₁ l₂ l₃ u₁ u₂ u₃))
      (λ _. pure token)

-- a missing key reads as 0
unfoldable pub reset : SlotKey → ℕ → Service (Unit {0})
reset k value = send_off (λ w. record w { counters = write k (pos value) w.counters })
