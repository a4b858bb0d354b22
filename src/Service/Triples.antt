-- ===== src/Service/Triples.antt =====
-- What holds after a run of a handler that starts in a world with a property: one property where
-- it returns, for the value that it returns, and another where it raises.
use stask_service.Prelude.{subst, sym, Bool, true, false, if◌then◌else◌, List, [], ◌∷◌, ◌≡◌, refl}
use stask_service.Service.{
  World, Service, Fault, answers, refuses, loses, Exn, Result, ok, raised, pure, raise, gets,
  external, respond, catch, recover, continue, ◌>>=◌,
}
use stask_service.Service.Keeps.{Steady, Keeps}

abbrev pub Post {ℓ κ} :
    {A : Type ℓ} → (A → World → Type κ) → (World → Type κ) → Result A → World → Type κ
Post R E (ok a) w = R a w
Post R E (raised e) w = E w

pub record Triple {ℓ κ κ'} {A : Type ℓ} (P : World → Type κ') (m : Service A)
    (R : A → World → Type κ) (E : World → Type κ) : Type (κ ⊔ κ') where
  pub after : (w : World) → P w → Post R E (m w).0 (m w).1

module _ {ℓ} {A : Type ℓ} (R : A → World → Type 0) (E : World → Type 0) where
  respond-after :
      {P : World → Type 0} (s : List Fault) (f : World → A × World) (w : World)
      → Steady P
      → ((v : World) → P v → R (f v).0 (f v).1)
      → ((v : World) → P v → E v)
      → ((v : World) → P v → E (f v).1)
      → P w
      → Post R E (respond s f w).0 (respond s f w).1
  unfolding respond
  respond-after [] f w st a b c h = a w h
  respond-after (answers ∷ s) f w st a b c h = a (record w { script = s }) (st w s h)
  respond-after (refuses ∷ s) f w st a b c h = b (record w { script = s }) (st w s h)
  respond-after (loses ∷ s) f w st a b c h = c (record w { script = s }) (st w s h)

  recover-after :
      (F : World → Type 0) (r : Result A) (h : Exn → Service A) (w : World)
      → ((e : Exn) → Triple E (h e) R F)
      → Post R E r w
      → Post R F (recover r h w).0 (recover r h w).1
  unfolding recover
  recover-after F (ok a) h w k p = p
  recover-after F (raised e) h w k p = (k e).after w p

  weak-after :
      (S : A → World → Type 0) (F : World → Type 0) (r : Result A) (w : World)
      → ((a : A) (v : World) → R a v → S a v)
      → ((v : World) → E v → F v)
      → Post R E r w
      → Post S F r w
  weak-after S F (ok a) w f g p = f a w p
  weak-after S F (raised e) w f g p = g w p

module _ {ℓ ℓ'} {A : Type ℓ} {B : Type ℓ'} (R : A → World → Type 0) (S : B → World → Type 0)
    (E : World → Type 0) where
  continue-after :
      (r : Result A) (f : A → Service B) (w : World)
      → ((a : A) → Triple (R a) (f a) S E)
      → Post R E r w
      → Post S E (continue r f w).0 (continue r f w).1
  unfolding continue
  continue-after (ok a) f w k p = (k a).after w p
  continue-after (raised e) f w k p = p

kept {ℓ} : {A : Type ℓ} (P : World → Type 0) (r : Result A) (w : World) → P w → Post (λ a. P) P r w
kept P (ok a) w h = h
kept P (raised e) w h = h

-- what is kept is known before and after
pub Triple-keeps {ℓ} :
    {A : Type ℓ} {P : World → Type 0} (m : Service A) → Keeps P m → Triple P m (λ a. P) P
Triple-keeps {P = P} m k = record { after = λ w h. kept P (m w).0 (m w).1 (k.at w h) }

module _ {ℓ} {A : Type ℓ} {P : World → Type 0} {R : A → World → Type 0} {E : World → Type 0} where
  pub Triple-pure : (a : A) → ((w : World) → P w → R a w) → Triple P (pure a) R E
  unfolding pure
  Triple-pure a k = record { after = k }

  pub Triple-raise : (e : Exn) → ((w : World) → P w → E w) → Triple P (raise e) R E
  unfolding raise
  Triple-raise e k = record { after = k }

  pub Triple-gets : (f : World → A) → ((w : World) → P w → R (f w) w) → Triple P (gets f) R E
  unfolding gets
  Triple-gets f k = record { after = k }

  -- a call that is answered, refused or lost
  pub Triple-external :
      Steady P
      → (f : World → A × World) → ((v : World) → P v → R (f v).0 (f v).1)
      → ((v : World) → P v → E v)
      → ((v : World) → P v → E (f v).1)
      → Triple P (external f) R E
  unfolding external
  Triple-external st f a b c = record { after = λ w h. respond-after R E w.script f w st a b c h }

  -- a call in a world in which every call is answered
  pub Triple-answered :
      ((w : World) → P w → w.script ≡ [])
      → (f : World → A × World) → ((v : World) → P v → R (f v).0 (f v).1)
      → Triple P (external f) R E
  unfolding external respond
  Triple-answered calm f a = record {
    after =
        λ w h. subst (λ s. Post R E (respond s f w).0 (respond s f w).1) (sym (calm w h)) (a w h);
  }

  pub Triple-if :
      (b : Bool) (m n : Service A)
      → (b ≡ true → Triple P m R E)
      → (b ≡ false → Triple P n R E)
      → Triple P (if b then m else n) R E
  Triple-if true m n km kn = km refl
  Triple-if false m n km kn = kn refl

  pub Triple-catch :
      {F : World → Type 0} (m : Service A) (h : Exn → Service A)
      → Triple P m R E
      → ((e : Exn) → Triple E (h e) R F)
      → Triple P (catch m h) R F
  unfolding catch
  Triple-catch m h km kh = record {
    after = λ w p. recover-after R E _ (m w).0 h (m w).1 kh (km.after w p);
  }

  pub Triple-weak :
      {O : World → Type 0} {S : A → World → Type 0} {F : World → Type 0} (m : Service A)
      → ((w : World) → O w → P w)
      → ((a : A) (v : World) → R a v → S a v)
      → ((v : World) → E v → F v)
      → Triple P m R E
      → Triple O m S F
  Triple-weak m o f g k = record {
    after = λ w h. weak-after R E _ _ (m w).0 (m w).1 f g (k.after w (o w h));
  }

-- a fact about the start that does not depend on the world
pub Triple-given {ℓ} :
    {A : Type ℓ} {X : Type 0} {P : World → Type 0} {R : A → World → Type 0} {E : World → Type 0}
    (m : Service A)
    → (X → Triple P m R E)
    → Triple (λ w. X × P w) m R E
Triple-given m k = record { after = λ w h. (k h.0).after w h.1 }

module _ {ℓ ℓ'} {A : Type ℓ} {B : Type ℓ'} {P : World → Type 0} {R : A → World → Type 0}
    {S : B → World → Type 0} {E : World → Type 0} where
  pub Triple-bind :
      (m : Service A) (f : A → Service B)
      → Triple P m R E
      → ((a : A) → Triple (R a) (f a) S E)
      → Triple P (m >>= f) S E
  unfolding ◌>>=◌
  Triple-bind m f km kf = record {
    after = λ w h. continue-after R S E (m w).0 f (m w).1 kf (km.after w h);
  }
