-- ===== src/Slots/Release.antt =====
-- LUA_SLOT_RELEASE3 against LUA_SLOT_ACQUIRE3: what a task gives back is compared with what it took.
use stask_service.Prelude.{
  ℕ, zero, suc, ◌<◌, Text, text_eq_refl, text_eq_iff, true, ◌&&◌, leb, if◌then◌else◌, ◌≡◌, refl,
  arith,
}
use stask_service.Prelude.Int.{ℤ, pos, negsuc, succ, pred, is_negative, IsNat}
use stask_service.Slots.{
  SlotKey, token_slot, model_token_slot, global_slot, key_eq, Counters, acquire3, release3,
}
use stask_service.Slots.Acquire.{fits, acquire3-mask, acquire3-counters}

abbrev pub AllNat : Counters → Type 0
AllNat c = (j : SlotKey) → IsNat (c j)

-- DECR with the floor, on one counter
abbrev pub given_back : ℤ → ℤ
given_back z = if is_negative (pred z) then pos 0 else pred z

module _ (th m : Text) (mask : ℕ) (c : Counters) where
  abbrev layer_bound : SlotKey → ℕ
  layer_bound (token_slot a) = 1
  layer_bound (model_token_slot a n) = 2
  layer_bound (global_slot n) = 4

  abbrev own' : SlotKey → SlotKey
  own' (token_slot a) = token_slot th
  own' (model_token_slot a n) = model_token_slot th m
  own' (global_slot n) = global_slot m

  pub release3-counters :
      (j : SlotKey)
      → release3 (token_slot th) (model_token_slot th m) (global_slot m) mask c j
        ≡ (if leb (layer_bound j) mask && key_eq (own' j) j then given_back (c j) else c j)
  unfolding release3
  release3-counters (token_slot a) =
      ground (arith, text_eq_refl th, text_eq_refl m, text_eq_iff th a)
  release3-counters (model_token_slot a n) =
      ground (arith, text_eq_refl th, text_eq_refl m, text_eq_iff th a, text_eq_iff m n)
  release3-counters (global_slot n) =
      ground (arith, text_eq_refl th, text_eq_refl m, text_eq_iff m n)

pub given_back-succ : (z : ℤ) → IsNat z → given_back (succ z) ≡ z
given_back-succ (pos n) h = refl
given_back-succ (negsuc n) h = elim h [ ]

given_back-IsNat : (z : ℤ) → IsNat z → IsNat (given_back z)
given_back-IsNat (pos zero) h = tt
given_back-IsNat (pos (suc n)) h = tt
given_back-IsNat (negsuc n) h = elim h [ ]

module _ (th m : Text) (l₁ l₂ l₃ : ℕ) (c : Counters) where
  -- the script's three keys at a token and a model
  abbrev pub taken : ℕ × Counters
  taken = acquire3 (token_slot th) (model_token_slot th m) (global_slot m) l₁ l₂ l₃ c

  abbrev pub returned : Counters
  returned = release3 (token_slot th) (model_token_slot th m) (global_slot m) taken.0 taken.1

  -- Where the token layer is on, and the global layer only together with the middle one, and all
  -- counters are natural numbers, giving back the mask that was returned restores every counter,
  -- whether or not the task got in.
  pub release3-acquire3 : 0 < l₁ → (0 < l₃ → 0 < l₂) → AllNat c → (j : SlotKey) → returned j ≡ c j
  release3-acquire3 h₁ h₃ nat (token_slot a) = ground (
    arith,
    release3-counters th m taken.0 taken.1 (token_slot a),
    acquire3-mask th m l₁ l₂ l₃ c h₁,
    acquire3-counters th m l₁ l₂ l₃ c (token_slot a) h₁,
    given_back-succ (c (token_slot a)) (nat (token_slot a)),
  )
  release3-acquire3 h₁ h₃ nat (model_token_slot a n) = ground (
    arith,
    release3-counters th m taken.0 taken.1 (model_token_slot a n),
    acquire3-mask th m l₁ l₂ l₃ c h₁,
    acquire3-counters th m l₁ l₂ l₃ c (model_token_slot a n) h₁,
    given_back-succ (c (model_token_slot a n)) (nat (model_token_slot a n)),
  )
  release3-acquire3 h₁ h₃ nat (global_slot n) = ground (
    arith,
    release3-counters th m taken.0 taken.1 (global_slot n),
    acquire3-mask th m l₁ l₂ l₃ c h₁,
    acquire3-counters th m l₁ l₂ l₃ c (global_slot n) h₁,
    given_back-succ (c (global_slot n)) (nat (global_slot n)),
  )

  -- With the middle layer off and the global layer on, a task that gets in and gives its mask back
  -- has lowered a counter of the middle layer that it never raised.
  pub release3-steals :
      (n : ℕ)
      → 0 < l₁
      → l₂ ≡ 0
      → 0 < l₃
      → fits th m l₁ l₂ l₃ c ≡ true
      → c (model_token_slot th m) ≡ pos (suc n)
      → (taken.0 ≡ 5)
        × (taken.1 (model_token_slot th m) ≡ pos (suc n))
        × (returned (model_token_slot th m) ≡ pos n)
  release3-steals n h₁ h₂ h₃ fit e = ground (
    arith,
    text_eq_refl th,
    text_eq_refl m,
    release3-counters th m taken.0 taken.1 (model_token_slot th m),
    acquire3-mask th m l₁ l₂ l₃ c h₁,
    acquire3-counters th m l₁ l₂ l₃ c (model_token_slot th m) h₁,
  )
