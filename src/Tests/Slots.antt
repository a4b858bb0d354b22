-- ===== src/Tests/Slots.antt =====
-- Runs of the slot scripts.
use stask_service.Prelude.{Text, codes, true, if◌then◌else◌, ◌+◌, ◌≡◌, refl, arith, text_eq}
use stask_service.Prelude.Int.{pos}
use stask_service.Slots.{token_slot, model_token_slot, global_slot, Counters, acquire3}
use stask_service.Slots.Acquire.{fits, bit, held_one_more, acquire3-mask, acquire3-counters}
use stask_service.Slots.Release.{taken, returned, release3-acquire3, release3-steals}

abbrev none_held : Counters
none_held k = pos 0

-- somebody else holds one slot of each layer
abbrev one_held : Counters
one_held k = pos 1

abbrev th : Text
th = codes "aa"

abbrev gpt : Text
gpt = codes "gpt"

one_fits : fits th gpt 2 0 5 one_held ≡ true
unfolding text_eq
one_fits = refl

acquire3-mask_example :
    (acquire3 (token_slot th) (model_token_slot th gpt) (global_slot gpt) 2 1 5 none_held).0
    ≡ (if fits th gpt 2 1 5 none_held then bit 2 1 + bit 1 2 + bit 5 4 else 0)
acquire3-mask_example = acquire3-mask th gpt 2 1 5 none_held (omega arith)

acquire3-counters_example :
    (acquire3 (token_slot th) (model_token_slot th gpt) (global_slot gpt) 2 1 5 one_held).1
      (token_slot th)
    ≡ (if fits th gpt 2 1 5 one_held
        then held_one_more th gpt 2 1 5 one_held (token_slot th)
        else pos 1)
acquire3-counters_example = acquire3-counters th gpt 2 1 5 one_held (token_slot th) (omega arith)

release3-acquire3_example : returned th gpt 2 2 5 one_held (global_slot gpt) ≡ pos 1
release3-acquire3_example =
    release3-acquire3 th gpt 2 2 5 one_held (omega arith) (λ h. omega arith) (λ j. tt)
      (global_slot gpt)

-- one other task holds a slot of the middle layer, taken before that layer was switched off
release3-steals_example :
    ((taken th gpt 2 0 5 one_held).0 ≡ 5)
    × ((taken th gpt 2 0 5 one_held).1 (model_token_slot th gpt) ≡ pos 1)
    × (returned th gpt 2 0 5 one_held (model_token_slot th gpt) ≡ pos 0)
release3-steals_example =
    release3-steals th gpt 2 0 5 one_held 0 (omega arith) refl (omega arith) one_fits refl
