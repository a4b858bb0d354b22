-- ===== src/Slots/Acquire.antt =====
-- What LUA_SLOT_ACQUIRE3 does to each key.
use stask_service.Prelude.{
  ℕ, ◌+◌, ◌<◌, Text, text_eq_refl, text_eq_iff, Bool, true, false, ◌&&◌, ltb, if◌then◌else◌, ◌≡◌,
  arith,
}
use stask_service.Prelude.Int.{ℤ, succ, exceeds}
use stask_service.Slots.{
  SlotKey, token_slot, model_token_slot, global_slot, key_eq, Counters, acquire3,
}

pub key_eq-eq : (a b : SlotKey) → key_eq a b ≡ true → a ≡ b
key_eq-eq (token_slot a) (token_slot b) h = ground (arith, text_eq_iff a b)
key_eq-eq (model_token_slot a m) (model_token_slot b n) h =
    ground (arith, text_eq_iff a b, text_eq_iff m n)
key_eq-eq (global_slot a) (global_slot b) h = ground (arith, text_eq_iff a b)
key_eq-eq (token_slot a) (model_token_slot b n) h = ground arith
key_eq-eq (token_slot a) (global_slot b) h = ground arith
key_eq-eq (model_token_slot a m) (token_slot b) h = ground arith
key_eq-eq (model_token_slot a m) (global_slot b) h = ground arith
key_eq-eq (global_slot a) (token_slot b) h = ground arith
key_eq-eq (global_slot a) (model_token_slot b n) h = ground arith

-- A layer that is switched on has room for one more.
abbrev pub has_room : ℕ → ℤ → Bool
has_room l z = if ltb 0 l then (if exceeds (succ z) l then false else true) else true

abbrev pub bit : ℕ → ℕ → ℕ
bit l n = if ltb 0 l then n else 0

module _ (th m : Text) (l₁ l₂ l₃ : ℕ) (c : Counters) where
  abbrev pub fits : Bool
  fits =
      has_room l₁ (c (token_slot th))
      && (has_room l₂ (c (model_token_slot th m)) && has_room l₃ (c (global_slot m)))

  abbrev pub limit_of : SlotKey → ℕ
  limit_of (token_slot a) = l₁
  limit_of (model_token_slot a n) = l₂
  limit_of (global_slot n) = l₃

  abbrev pub own : SlotKey → SlotKey
  own (token_slot a) = token_slot th
  own (model_token_slot a n) = model_token_slot th m
  own (global_slot n) = global_slot m

  -- the counters after one more task holds every layer that is switched on
  abbrev pub held_one_more : Counters
  held_one_more j = if ltb 0 (limit_of j) && key_eq (own j) j then succ (c j) else c j

  -- Where the token layer is on, the script answers with the bits of the layers that are switched
  -- on if every such layer has room, and with 0 otherwise.
  pub acquire3-mask :
      0 < l₁
      → (acquire3 (token_slot th) (model_token_slot th m) (global_slot m) l₁ l₂ l₃ c).0
        ≡ (if fits then bit l₁ 1 + bit l₂ 2 + bit l₃ 4 else 0)
  unfolding acquire3
  acquire3-mask h = ground (arith, text_eq_refl th, text_eq_refl m)

  -- Where the token layer is on, the script raises the counters of the layers that are switched on
  -- by one if every such layer has room, and leaves every counter alone otherwise.
  pub acquire3-counters :
      (j : SlotKey)
      → 0 < l₁
      → (acquire3 (token_slot th) (model_token_slot th m) (global_slot m) l₁ l₂ l₃ c).1 j
        ≡ (if fits then held_one_more j else c j)
  unfolding acquire3
  acquire3-counters (token_slot a) h =
      ground (arith, text_eq_refl th, text_eq_refl m, text_eq_iff th a)
  acquire3-counters (model_token_slot a n) h =
      ground (arith, text_eq_refl th, text_eq_refl m, text_eq_iff th a, text_eq_iff m n)
  acquire3-counters (global_slot n) h =
      ground (arith, text_eq_refl th, text_eq_refl m, text_eq_iff m n)
