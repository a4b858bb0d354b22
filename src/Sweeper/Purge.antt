-- ===== src/Sweeper/Purge.antt =====
-- app/services/sweeper.py, `purge_results`: what a run leaves where every call is answered.
use stask_service.Prelude.{
  ℕ, zero, suc, ◌+◌, ◌-◌, ◌≤◌, ◌<◌, min, codes, Bool, true, false, ltb, if◌then◌else◌, length, List,
  [], ◌∷◌, ◌≡◌, refl, ap, subst, arith, Bool-cases, inl, inr,
}
use stask_service.Rows.{Row}
use stask_service.Service.{World, Config}
use stask_service.Service.Triples.{
  Triple, Post, Triple-answered, Triple-bind, Triple-pure, Triple-gets, Triple-if, Triple-catch,
  Triple-given, Triple-weak,
}
use stask_service.Sweeper.{lock, purge_rounds, purge_results}
use stask_service.Sweeper.Queries.{is_expired, emptied, purge_rows, purge_expired_results}

abbrev pub count_where : (Row → Bool) → List Row → ℕ
count_where test [] = 0
count_where test (r ∷ rs) = let rest = count_where test rs in if test r then suc rest else rest

count_where-length : (test : Row → Bool) (rs : List Row) → count_where test rs ≤ length rs
count_where-length test [] = ground arith
count_where-length test (r ∷ rs) = ground (arith, count_where-length test rs)

module _ (test : Row → Bool) (gone : (r : Row) → test (emptied r) ≡ false) where
  purge_rows-count :
      (limit : ℕ) (rs : List Row)
      → ((purge_rows test limit rs).0 ≡ min limit (count_where test rs))
        × (count_where test (purge_rows test limit rs).1 + (purge_rows test limit rs).0
            ≡ count_where test rs)
  unfolding purge_rows
  purge_rows-count limit [] = (ground arith, refl)
  purge_rows-count zero (r ∷ rs) = ground arith
  purge_rows-count (suc limit) (r ∷ rs) = elim (Bool-cases (test r)) [
    | inl e ↦ rw e (ground (arith, gone r, purge_rows-count limit rs))
    | inr e ↦ rw e (rw e (ground (arith, e, purge_rows-count (suc limit) rs)))
  ]

module _ (c : Config) (ts : ℕ) where
  abbrev expired : Row → Bool
  expired r = is_expired c.result_ttl_seconds ts r

  -- a calm world in which so many results are left
  abbrev Left : ℕ → World → Type 0
  Left n w = (w.script ≡ []) × (w.config ≡ c) × (w.clock ≡ ts) × (count_where expired w.rows ≡ n)

  module _ (some_limit : 0 < c.result_purge_batch_limit) where
    abbrev limit : ℕ
    limit = c.result_purge_batch_limit

    one_round-Left :
        (n : ℕ)
        → Triple
            (Left n)
            purge_expired_results
            (λ m w. (m ≡ min limit n) × Left (n - min limit n) w)
            (λ w. ⊥)
    unfolding purge_expired_results
    one_round-Left n =
        Triple-bind _ _
          (Triple-gets {R = λ t w. (t ≡ ts) × Left n w} (λ w. w.clock) (λ w h. (h.2, h)))
          λ t.
            Triple-given _ λ (e : t ≡ ts). Triple-answered (λ w h. h.0) _ (λ w h. cleaned t w e h)
      where
        cleaned :
            (t : ℕ) (w : World)
            → t ≡ ts
            → Left n w
            → (purge_rows
                  (is_expired w.config.result_ttl_seconds t)
                  w.config.result_purge_batch_limit
                  w.rows).0
                ≡ min limit n
              × Left (n - min limit n) (record w {
                rows =
                    (purge_rows
                      (is_expired w.config.result_ttl_seconds t)
                      w.config.result_purge_batch_limit
                      w.rows).1;
              })
        cleaned t w e (calm, same, now, left) =
            let p = purge_rows-count expired (λ r. refl) limit w.rows in
            rw e (
              rw same
                (ground (arith, p.0, left), (calm, refl, now, ground (arith, p.0, p.1, left))))

    purge_rounds-Left :
        (rounds : List Row) (n : ℕ)
        → n ≤ length rounds
        → Triple (Left n) (purge_rounds rounds) (λ m w. (m ≡ n) × Left 0 w) (λ w. ⊥)
    unfolding purge_rounds
    purge_rounds-Left [] n fits =
        Triple-pure 0 (λ w h. (omega (arith, fits), subst (λ k. Left k w) (omega (arith, fits)) h))
    purge_rounds-Left (r ∷ rounds) n fits =
        Triple-bind _ _
          (Triple-gets {R = λ l w. (l ≡ limit) × Left n w} _
            (λ w h. (ap (λ x. x.result_purge_batch_limit) h.1, h)))
          λ l. Triple-given _ λ (same : l ≡ limit). Triple-bind _ _ (one_round-Left n) λ m.
            Triple-given _ λ (cut : m ≡ min limit n).
              Triple-if (ltb m l) _ _
                (λ e. Triple-pure m (λ w h. (last m l same cut e, none_left m l w same cut e h)))
                (λ e.
                  Triple-bind _ _
                    (purge_rounds-Left rounds (n - min limit n) (ground (arith, fits, some_limit)))
                    λ k. Triple-given _ λ (rest : k ≡ n - min limit n).
                      Triple-pure (m + k) (λ w h. (ground (arith, cut, rest), h)))
      where
        last : (m l : ℕ) → l ≡ limit → m ≡ min limit n → ltb m l ≡ true → m ≡ n
        last m l same cut e = ground arith

        none_left :
            (m l : ℕ) (w : World)
            → l ≡ limit
            → m ≡ min limit n
            → ltb m l ≡ true
            → Left (n - min limit n) w
            → Left 0 w
        none_left m l w same cut e h = (h.0, h.1, h.2, ground (arith, h.3, same, cut, e))

    lock-Left :
        (n : ℕ)
        → Triple
            (λ w. (w.sweep_locks (codes "purge") ≡ false) × Left n w)
            (lock (codes "purge"))
            (λ b w. (b ≡ true) × Left n w)
            (λ w. ⊥)
    unfolding lock
    lock-Left n =
        Triple-catch {E = λ w. ⊥} _ _ (Triple-answered (λ w h. h.1.0) _ (λ w h. rw h.0 (refl, h.1)))
          (λ e. record { after = λ w h. elim h [ ] })

    purge_results-Left :
        (n : ℕ)
        → Triple
            (λ w. (w.sweep_locks (codes "purge") ≡ false) × Left n w)
            purge_results
            (λ m w. (m ≡ n) × Left 0 w)
            (λ w. ⊥)
    unfolding purge_results
    purge_results-Left n = Triple-bind _ _ (lock-Left n) λ b. Triple-given _ λ (held : b ≡ true).
        Triple-bind _ _
          (Triple-gets {R = λ rs w. (n ≤ length rs) × Left n w} (λ w. w.rows)
            (λ w h. (ground (arith, h.3, count_where-length expired w.rows), h)))
          λ rs. Triple-given _ λ (enough : n ≤ length rs). rw held (purge_rounds-Left rs n enough)

-- Where every call is answered, the lock of the job is free and its batch limit is not 0: a purge
-- ends without an exception, answers with the number of results that had expired, and leaves none
-- of them.
pub purge_results-Clean :
    (w : World)
    → w.script ≡ []
    → w.sweep_locks (codes "purge") ≡ false
    → 0 < w.config.result_purge_batch_limit
    → Post
        (λ n v.
          (n ≡ count_where (is_expired w.config.result_ttl_seconds w.clock) w.rows)
          × (count_where (is_expired w.config.result_ttl_seconds w.clock) v.rows ≡ 0))
        (λ v. ⊥)
        (purge_results w).0
        (purge_results w).1
purge_results-Clean w calm free some_limit =
    (Triple-weak _ (λ v h. h) (λ n v h. (h.0, h.1.3)) (λ v h. h)
        (purge_results-Left w.config w.clock some_limit _)).after
      w (free, (calm, refl, refl, refl))
