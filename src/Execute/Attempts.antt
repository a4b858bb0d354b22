-- ===== src/Execute/Attempts.antt =====
-- How many HTTP requests the retry loop makes.
use stask_service.Prelude.{
  ℕ, zero, suc, ◌+◌, ◌≤◌, Text, leb, length, Option, none, some, [], ◌∷◌, arith, length-append,
}
use stask_service.Schemas.{failure}
use stask_service.Rows.{TaskData}
use stask_service.Service.{
  World, Service, Reply, connect_error, broken, response, pure, Result, raised, ◌>>=◌,
}
use stask_service.Service
use stask_service.Service.Keeps.{Keeps, Keeps-bind, Keeps-pure}
use stask_service.Service.Triples.{Triple, Post, Triple-bind, Triple-keeps, Triple-weak, Triple-if}
use stask_service.Codec.{Coders}
use stask_service.Execute.Settle.{Outcome}
use stask_service.Execute.Upstream.{request, give_up, break_off, after_reply, call_upstream}
use stask_service.Execute.Silent.{finalize-On, settle_response-On}

abbrev AtMost : ℕ → World → Type 0
AtMost n w = length w.calls ≤ n

request-counts :
    (tid : Text) (n m : ℕ) → Triple (AtMost n) (request tid) (λ r. AtMost (n + 1)) (AtMost m)
unfolding request pure
request-counts tid n m = record { after = λ w h. omega (arith, length-append w.calls (tid ∷ [])) }

-- a part that makes no request, within a bound
quiet {ℓ} :
    {A : Type ℓ} (n m : ℕ) (k : Service A)
    → n ≤ m
    → Keeps (AtMost n) k
    → Triple (AtMost n) k (λ a. AtMost m) (AtMost m)
quiet n m k le q =
    Triple-weak k (λ w h. h) (λ a w h. omega arith) (λ w h. omega arith) (Triple-keeps k q)

module _ (coders : Coders) (p : Text → Text) (u : Text → Text → Text) (tid : Text)
    (d : TaskData) where
  abbrev Bounded : ℕ → ℕ → Option (Service Outcome) → Type 0
  Bounded n m none = Unit
  Bounded n m (some k) = Triple (AtMost n) k (λ o. AtMost m) (AtMost m)

  after_reply-Bounded :
      (n m : ℕ) (a b : Option (Service Outcome)) (k : ℕ) (r : Reply)
      → n ≤ m
      → Bounded n m a
      → Bounded n m b
      → Triple (AtMost n) (after_reply coders p u tid d a b k r) (λ o. AtMost m) (AtMost m)
  unfolding after_reply give_up break_off
  after_reply-Bounded n m none b k (connect_error name) le ha hb = quiet n m _ le (
      Keeps-bind _ _ (finalize-On (λ c l. length c ≤ n) tid d failure _ _ none) (λ x. Keeps-pure _))
  after_reply-Bounded n m (some x) b k (connect_error name) le ha hb = ha
  after_reply-Bounded n m a b k (broken name) le ha hb = quiet n m _ le (
      Keeps-bind _ _ (finalize-On (λ c l. length c ≤ n) tid d failure _ _ none) (λ x. Keeps-pure _))
  after_reply-Bounded n m a none k (response status ct raw) le ha hb =
      let settled =
        quiet n m _ le
          (settle_response-On (λ c l. length c ≤ n) coders p u tid d status ct raw k) in
      Triple-if (leb 500 status) _ _ (λ e. settled) (λ e. settled)
  after_reply-Bounded n m a (some x) k (response status ct raw) le ha hb =
      Triple-if (leb 500 status) _ _ (λ e. hb)
        (λ e.
          quiet n m _ le
            (settle_response-On (λ c l. length c ≤ n) coders p u tid d status ct raw k))

  weaker :
      (n m m' : ℕ) (k : Service Outcome)
      → m ≤ m'
      → Triple (AtMost n) k (λ o. AtMost m) (AtMost m)
      → Triple (AtMost n) k (λ o. AtMost m') (AtMost m')
  weaker n m m' k le t = Triple-weak k (λ w h. h) (λ o w h. omega arith) (λ w h. omega arith) t

  bounded :
      (c a k n : ℕ)
      → Triple
          (AtMost n)
          (call_upstream coders p u tid d c a k)
          (λ o. AtMost (n + c + a + 1))
          (AtMost (n + c + a + 1))
  unfolding call_upstream
  bounded zero zero k n =
      Triple-bind _ _ (request-counts tid n _)
        λ r. after_reply-Bounded (n + 1) (n + 0 + 0 + 1) none none (k + 1) r (omega arith) tt tt
  bounded (suc c) zero k n = Triple-bind _ _ (request-counts tid n _) λ r.
      after_reply-Bounded (n + 1) (n + suc c + 0 + 1) (some _) none (k + 1) r (omega arith)
        (weaker (n + 1) (n + 1 + c + 0 + 1) (n + suc c + 0 + 1) _ (omega arith)
          (bounded c zero (k + 1) (n + 1)))
        tt
  bounded zero (suc a) k n = Triple-bind _ _ (request-counts tid n _) λ r.
      after_reply-Bounded (n + 1) (n + 0 + suc a + 1) none (some _) (k + 1) r (omega arith) tt (
        weaker (n + 1) (n + 1 + 0 + a + 1) (n + 0 + suc a + 1) _ (omega arith)
          (bounded zero a (k + 1) (n + 1)))
  bounded (suc c) (suc a) k n = Triple-bind _ _ (request-counts tid n _) λ r.
      after_reply-Bounded (n + 1) (n + suc c + suc a + 1) (some _) (some _) (k + 1) r (omega arith)
        (weaker (n + 1) (n + 1 + c + suc a + 1) (n + suc c + suc a + 1) _ (omega arith)
          (bounded c (suc a) (k + 1) (n + 1)))
        (weaker (n + 1) (n + 1 + suc c + a + 1) (n + suc c + suc a + 1) _ (omega arith)
          (bounded (suc c) a (k + 1) (n + 1)))

  both : (m : ℕ) (r : Result Outcome) (w : World) → Post (λ o. AtMost m) (AtMost m) r w → AtMost m w
  both m (Service.ok o) w h = h
  both m (raised e) w h = h

  -- Whatever the replies, the loop makes at most one request more than it has attempts left for
  -- connection errors and for answers from 500 on.
  pub call_upstream_bound :
      (c a attempt : ℕ) (w : World)
      → length (call_upstream coders p u tid d c a attempt w).1.calls ≤ length w.calls + c + a + 1
  call_upstream_bound c a attempt w =
      both (length w.calls + c + a + 1) (call_upstream coders p u tid d c a attempt w).0
        (call_upstream coders p u tid d c a attempt w).1
        ((bounded c a attempt (length w.calls)).after w (omega arith))
