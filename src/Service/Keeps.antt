-- ===== src/Service/Keeps.antt =====
-- What every run of a handler keeps, however its calls end and whether it returns or raises.
use stask_service.Prelude.{Bool, true, false, if◌then◌else◌, Option, none, some, List, [], ◌∷◌}
use stask_service.Service.{
  World, Service, Fault, answers, refuses, loses, Exn, Result, ok, raised, pure, raise, gets,
  external, respond, catch, recover, continue, ◌>>=◌,
}

-- `m` keeps `P`
pub record Keeps {ℓ κ} {A : Type ℓ} (P : World → Type κ) (m : Service A) : Type κ where
  pub at : (w : World) → P w → P (m w).1

-- `P` does not depend on how later calls will end.
abbrev pub Steady {κ} : (World → Type κ) → Type κ
Steady P = (w : World) (s : List Fault) → P w → P (record w { script = s })

module _ {ℓ κ} {A : Type ℓ} {P : World → Type κ} where
  pub Keeps-pure : (a : A) → Keeps P (pure a)
  unfolding pure
  Keeps-pure a = record { at = λ w h. h }

  pub Keeps-raise : (e : Exn) → Keeps P (raise {A = A} e)
  unfolding raise
  Keeps-raise e = record { at = λ w h. h }

  pub Keeps-gets : (f : World → A) → Keeps P (gets f)
  unfolding gets
  Keeps-gets f = record { at = λ w h. h }

  respond-keeps :
      (s : List Fault) (f : World → A × World) (w : World)
      → Steady P
      → ((v : World) → P v → P (f v).1)
      → P w
      → P (respond s f w).1
  unfolding respond
  respond-keeps [] f w st k h = k w h
  respond-keeps (answers ∷ s) f w st k h = k (record w { script = s }) (st w s h)
  respond-keeps (refuses ∷ s) f w st k h = st w s h
  respond-keeps (loses ∷ s) f w st k h = k (record w { script = s }) (st w s h)

  pub Keeps-external :
      Steady P → (f : World → A × World) → ((v : World) → P v → P (f v).1) → Keeps P (external f)
  unfolding external
  Keeps-external st f k = record { at = λ w h. respond-keeps w.script f w st k h }

  recover-keeps :
      (r : Result A) (h : Exn → Service A) (w : World)
      → ((e : Exn) → Keeps P (h e))
      → P w
      → P (recover r h w).1
  unfolding recover
  recover-keeps (ok a) h w k p = p
  recover-keeps (raised e) h w k p = (k e).at w p

  pub Keeps-catch :
      (m : Service A) (h : Exn → Service A)
      → Keeps P m
      → ((e : Exn) → Keeps P (h e))
      → Keeps P (catch m h)
  unfolding catch
  Keeps-catch m h km kh = record { at = λ w p. recover-keeps (m w).0 h (m w).1 kh (km.at w p) }

  pub Keeps-if : (b : Bool) (m n : Service A) → Keeps P m → Keeps P n → Keeps P (if b then m else n)
  Keeps-if true m n km kn = km
  Keeps-if false m n km kn = kn

module _ {ℓ ℓ' κ} {A : Type ℓ} {B : Type ℓ'} {P : World → Type κ} where
  continue-keeps :
      (r : Result A) (f : A → Service B) (w : World)
      → ((a : A) → Keeps P (f a))
      → P w
      → P (continue r f w).1
  unfolding continue
  continue-keeps (ok a) f w k p = (k a).at w p
  continue-keeps (raised e) f w k p = p

  pub Keeps-bind :
      (m : Service A) (f : A → Service B)
      → Keeps P m
      → ((a : A) → Keeps P (f a))
      → Keeps P (m >>= f)
  unfolding ◌>>=◌
  Keeps-bind m f km kf = record { at = λ w p. continue-keeps (m w).0 f (m w).1 kf (km.at w p) }

  pub Keeps-option :
      (o : Option A) (n : Service B) (f : A → Service B)
      → Keeps P n
      → ((a : A) → Keeps P (f a))
      → Keeps P (elim o [ none ↦ n | some a ↦ f a ])
  Keeps-option none n f kn kf = kn
  Keeps-option (some a) n f kn kf = kf a

pub ruleset keeps_rules =
    (Keeps-pure, Keeps-raise, Keeps-gets, Keeps-catch, Keeps-if, Keeps-bind, Keeps-option)
