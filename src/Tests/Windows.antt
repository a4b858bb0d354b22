-- ===== src/Tests/Windows.antt =====
-- Three requests of one caller, of which one may pass within a second.
use stask_service.Prelude.{ℕ, ◌≤◌, [], ◌∷◌, refl, arith}
use stask_service.Routes.Limits.Window.{starts, comes, count_within, Run_bound}

abbrev second : ℕ
second = 1000

-- the second one is refused
Run_bound_example : count_within second 1100 (1100 ∷ 100 ∷ []) ≤ 1
unfolding stask_service.SortedSets.zscore stask_service.Routes.Limits.drop_old
    stask_service.Routes.Limits.rate_limit_script stask_service.SortedSets.zadd
    stask_service.Prelude.text_eq stask_service.Execute.Settle.str_of
Run_bound_example = Run_bound second 1 1100 (
    comes 1100 1 (comes 500 2 (comes 100 3 starts (ground arith) refl) (ground arith) refl)
      (ground arith) refl)
