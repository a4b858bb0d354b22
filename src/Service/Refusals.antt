-- ===== src/Service/Refusals.antt =====
-- Runs in which at most one call is refused, and no reply is lost.
use stask_service.Prelude.{List, [], ◌∷◌, ◌≡◌, refl, subst, sym}
use stask_service.Service.{World, Fault, answers, refuses, loses, external, respond}
use stask_service.Service.Keeps.{Steady}
use stask_service.Service.Triples.{Triple, Post}

-- The script refuses one call at most, and answers all others.
abbrev pub OneRefusal : List Fault → Type 0
OneRefusal [] = Unit
OneRefusal (answers ∷ s) = OneRefusal s
OneRefusal (refuses ∷ s) = s ≡ []
OneRefusal (loses ∷ s) = ⊥

-- at most one refusal is to come
abbrev pub Before : (World → Type 0) → World → Type 0
Before P w = OneRefusal w.script × P w

-- the refusal has been
abbrev pub After : (World → Type 0) → World → Type 0
After P w = (w.script ≡ []) × P w

module _ {ℓ} {A : Type ℓ} (P : World → Type 0) (R : A → World → Type 0) where
  respond-refused :
      (s : List Fault) (f : World → A × World) (w : World)
      → w.script ≡ s
      → Steady P
      → ((v : World) → P v → R (f v).0 (f v).1)
      → ((v : World) → (f v).1.script ≡ v.script)
      → OneRefusal s
      → P w
      → Post (λ a. Before (R a)) (After P) (respond s f w).0 (respond s f w).1
  unfolding respond
  respond-refused [] f w e st k same one h =
      (subst OneRefusal (sym (same w)) (subst OneRefusal (sym e) tt), k w h)
  respond-refused (answers ∷ s) f w e st k same one h =
      let v = record w { script = s } in (subst OneRefusal (sym (same v)) one, k v (st w s h))
  respond-refused (refuses ∷ s) f w e st k same one h = (one, st w s h)
  respond-refused (loses ∷ s) f w e st k same one h = elim one [ ]

  -- a call that does not read ahead in the script
  pub Triple-refused :
      Steady P
      → (f : World → A × World) → ((v : World) → P v → R (f v).0 (f v).1)
      → ((v : World) → (f v).1.script ≡ v.script)
      → Triple (Before P) (external f) (λ a. Before (R a)) (After P)
  unfolding external
  Triple-refused st f k same = record {
    after = λ w h. respond-refused w.script f w refl st k same h.0 h.1;
  }
