-- ===== src/System/Lifecycle.antt =====
-- The life of a task as its client sees it: an abstract machine that knows nothing of the tables,
-- the queue or the slots, and the phase of a row.
use stask_service.Prelude.{ℕ, Text, text_eq_iff, true, ◌≡◌, refl, arith, subst, sym}
use stask_service.Schemas.{
  Status, queued, in_progress, success, failure, canceled, foreign, is_among, terminal,
}
use stask_service.Schemas.Lifecycle.{may_become}
use stask_service.Rows.{Row}
use stask_service.Store.Growth.{Follows, Born}

-- The numbers are the times of an end.
pub data Phase : Type 0 where
  waiting running : Phase
  succeeded failed canceled_at : ℕ → Phase
  unknown : Text → Phase

pub data Move : Phase → Phase → Type 0 where
  begins : Move waiting running
  cancels : (n : ℕ) → Move waiting (canceled_at n)
  refuses : (n : ℕ) → Move waiting (failed n)
  succeeds : (n : ℕ) → Move running (succeeded n)
  fails : (n : ℕ) → Move running (failed n)

pub data Life : Phase → Phase → Type 0 where
  stays : (p : Phase) → Life p p
  then : {p q r : Phase} → Move p q → Life q r → Life p r

abbrev phase : Status → ℕ → Phase
phase queued n = waiting
phase in_progress n = running
phase success n = succeeded n
phase failure n = failed n
phase canceled n = canceled_at n
phase (foreign s) n = unknown s

abbrev pub phase_of : Row → Phase
phase_of r = phase r.status r.finish_time

legal-Life :
    (s t : Status) (n m : ℕ)
    → may_become s t ≡ true
    → (is_among s terminal ≡ true → m ≡ n)
    → Life (phase s n) (phase t m)
legal-Life queued queued n m h k = stays waiting
legal-Life queued in_progress n m h k = then begins (stays running)
legal-Life queued success n m h k = then begins (then (succeeds m) (stays (succeeded m)))
legal-Life queued failure n m h k = then (refuses m) (stays (failed m))
legal-Life queued canceled n m h k = then (cancels m) (stays (canceled_at m))
legal-Life in_progress in_progress n m h k = stays running
legal-Life in_progress success n m h k = then (succeeds m) (stays (succeeded m))
legal-Life in_progress failure n m h k = then (fails m) (stays (failed m))
legal-Life success success n m h k =
    subst (λ x. Life (succeeded n) (succeeded x)) (sym (k refl)) (stays (succeeded n))
legal-Life failure failure n m h k =
    subst (λ x. Life (failed n) (failed x)) (sym (k refl)) (stays (failed n))
legal-Life canceled canceled n m h k =
    subst (λ x. Life (canceled_at n) (canceled_at x)) (sym (k refl)) (stays (canceled_at n))
legal-Life (foreign a) (foreign b) n m h k =
    subst (λ x. Life (unknown a) (unknown x)) ((text_eq_iff a b).0 h) (stays (unknown a))
legal-Life s t n m h k = absurd (ground arith)

pub Follows-Life : {r s : Row} → Follows r s → Life (phase_of r) (phase_of s)
Follows-Life {r} {s} f = legal-Life r.status s.status r.finish_time s.finish_time f.legal f.ended

-- the end of a new row is its first one
pub Born-Life : (r : Row) → Born r → Life waiting (phase_of r)
Born-Life r b = legal-Life queued r.status 0 r.finish_time b (λ h. absurd (ground arith))
