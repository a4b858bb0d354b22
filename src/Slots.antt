-- ===== src/Slots.antt =====
-- app/redis.py (the slot scripts) and app/services/slots.py.
pub mod Acquire
pub mod Release
use stask_service.Prelude.{
  ℕ, ◌+◌, Text, text_eq, Bool, true, false, ltb, leb, if◌then◌else◌, ◌≡◌, refl,
}
use stask_service.Prelude.Int.{ℤ, pos, succ, pred, exceeds, is_negative}

-- K_SLOT, K_MSLOT and K_GSLOT. A constructor stands for a key format: the hash of a token is
-- hexadecimal, so the formats never collide.
pub data SlotKey : Type 0 where
  token_slot : Text → SlotKey
  model_token_slot : Text → Text → SlotKey
  global_slot : Text → SlotKey

abbrev pub key_eq : SlotKey → SlotKey → Bool
key_eq (token_slot a) (token_slot b) = text_eq a b
key_eq (model_token_slot a m) (model_token_slot b n) = if text_eq a b then text_eq m n else false
key_eq (global_slot m) (global_slot n) = text_eq m n
key_eq _ _ = false

-- A key that is missing reads as 0, for INCR, DECR and GET alike.
abbrev pub Counters : Type 0
Counters = SlotKey → ℤ

abbrev pub write : SlotKey → ℤ → Counters → Counters
write k v c = λ j. if key_eq k j then v else c j

abbrev pub incr : SlotKey → Counters → Counters
incr k c = write k (succ (c k)) c

abbrev pub decr : SlotKey → Counters → Counters
decr k c = write k (pred (c k)) c

module _ (k₁ k₂ k₃ : SlotKey) (l₁ l₂ l₃ : ℕ) where
  -- LUA_SLOT_ACQUIRE3, the third layer: `mask` is what the first two added.
  acquire_third : ℕ → Counters → ℕ × Counters
  acquire_third mask c =
      let taken = incr k₃ c in
      let back = decr k₃ taken in
      let back₂ = if leb 2 mask then decr k₂ back else back in
      let back₁ = if leb 1 mask then decr k₁ back₂ else back₂ in
      if ltb 0 l₃
      then (if exceeds (taken k₃) l₃ then (0, back₁) else (mask + 4, taken))
      else (mask, c)

  -- the second layer
  acquire_second : ℕ → Counters → ℕ × Counters
  unfolding acquire_third
  acquire_second mask c =
      let taken = incr k₂ c in
      let back = decr k₂ taken in
      let back₁ = if leb 1 mask then decr k₁ back else back in
      if ltb 0 l₂
      then (if exceeds (taken k₂) l₂ then (0, back₁) else acquire_third (mask + 2) taken)
      else acquire_third mask c

  -- the whole script; the keys' expiry is not part of the counters
  unfoldable pub acquire3 : Counters → ℕ × Counters
  unfolding acquire_second
  acquire3 c =
      let taken = incr k₁ c in
      let back = decr k₁ taken in
      if ltb 0 l₁
      then (if exceeds (taken k₁) l₁ then (0, back) else acquire_second 1 taken)
      else acquire_second 0 c

-- LUA_SLOT_RELEASE: DECR, and 0 written over a negative value
abbrev pub decr_floor : SlotKey → Counters → Counters
decr_floor k c = let d = decr k c in if is_negative (d k) then write k (pos 0) d else d

-- LUA_SLOT_RELEASE3
unfoldable pub release3 : SlotKey → SlotKey → SlotKey → ℕ → Counters → Counters
release3 k₁ k₂ k₃ mask c =
    let c₁ = if leb 1 mask then decr_floor k₁ c else c in
    let c₂ = if leb 2 mask then decr_floor k₂ c₁ else c₁ in
    if leb 4 mask then decr_floor k₃ c₂ else c₂
