-- ===== src/Upstream/Caches.antt =====
-- What the caches of the token check may answer.
use stask_service.Prelude.{
  ℕ, ◌+◌, Text, text_eq, text_eq_iff, false, ltb, length, Option, none, some, [], ◌∷◌, ◌≡◌, refl,
  Bool-cases, inl, inr, subst,
}
use stask_service.Service
use stask_service.Service.{
  World, Service, Credential, Exn, http, Result, raised, put_at, pure, raise, gets, external, catch,
  quietly, ◌>>=◌,
}
use stask_service.Service.Triples.{
  Triple, Post, Triple-bind, Triple-external, Triple-pure, Triple-raise, Triple-weak, Triple-catch,
  Triple-gets, Triple-given,
}
use stask_service.Upstream.{
  Entries, token_key, lookup, drop, fresh, local_get, put, local_put, redis_get, redis_put,
  fetch_credential, check, of_result, from_table, from_redis, from_process, authenticate,
}

-- every cached answer is one that may be given
abbrev pub Vouches : (Text → ℕ → Type 0) → Entries → Type 0
Vouches V [] = Unit
Vouches V ((h, at, user) ∷ es) = V h user × Vouches V es

abbrev pub Vouched : (Text → ℕ → Type 0) → Text → Option ℕ → Type 0
Vouched V h none = Unit
Vouched V h (some user) = V h user

abbrev pub AreSound : (Text → ℕ → Type 0) → World → Type 0
AreSound V w = Vouches V w.local_auth × ((h : Text) → Vouched V h (w.auth_cache h))

module _ (V : Text → ℕ → Type 0) where
  abbrev VouchedHit : Text → Option (ℕ × ℕ) → Type 0
  VouchedHit h none = Unit
  VouchedHit h (some (at, user)) = V h user

  lookup-VouchedHit : (h : Text) (es : Entries) → Vouches V es → VouchedHit h (lookup h es)
  unfolding lookup
  lookup-VouchedHit h [] v = tt
  lookup-VouchedHit h ((k, at, user) ∷ es) v = elim (Bool-cases (text_eq k h)) [
    | inl e ↦ rw e (subst (λ x. V x user) ((text_eq_iff k h).0 e) v.0)
    | inr e ↦ rw e (lookup-VouchedHit h es v.1)
  ]

  drop-Vouches : (h : Text) (es : Entries) → Vouches V es → Vouches V (drop h es)
  unfolding drop
  drop-Vouches h [] v = tt
  drop-Vouches h ((k, at, user) ∷ es) v = elim (Bool-cases (text_eq k h)) [
    | inl e ↦ rw e (drop-Vouches h es v.1)
    | inr e ↦ rw e (v.0, drop-Vouches h es v.1)
  ]

  put-Vouches :
      (h : Text) (at user : ℕ) (es : Entries)
      → V h user
      → Vouches V es
      → Vouches V (put h at user es)
  unfolding put
  put-Vouches h at user es good v = elim (Bool-cases (ltb 10000 (length es))) [
    | inl e ↦ rw e (good, tt)
    | inr e ↦ rw e (good, drop-Vouches h es v)
  ]

  fresh-Vouched :
      (h : Text) (es : Entries) (now : ℕ) (o : Option (ℕ × ℕ))
      → Vouches V es
      → VouchedHit h o
      → Vouched V h (fresh h es now o).0 × Vouches V (fresh h es now o).1
  unfolding fresh
  fresh-Vouched h es now none v k = (tt, v)
  fresh-Vouched h es now (some (at, user)) v k = elim (Bool-cases (ltb (at + 5) now)) [
    | inl e ↦ rw e (tt, drop-Vouches h es v)
    | inr e ↦ rw e (k, v)
  ]

  module _ (raw_token h : Text) (row : Option Credential) (now : ℕ)
      (passes : (user : ℕ) → check row now ≡ Service.ok user → V h user) where
    abbrev Sound : World → Type 0
    Sound w = AreSound V w × (w.credentials (token_key raw_token) ≡ row) × (w.clock ≡ now)

    abbrev Good : ℕ → World → Type 0
    Good user w = V h user × Sound w

    put_at-Sound :
        (user : ℕ) (w : World)
        → V h user
        → ((k : Text) → Vouched V k (w.auth_cache k))
        → (k : Text) → Vouched V k (put_at h (some user) w.auth_cache k)
    put_at-Sound user w good v k = elim (Bool-cases (text_eq h k)) [
      | inl same ↦ rw same (subst (λ x. V x user) ((text_eq_iff h k).0 same) good)
      | inr other ↦ rw other (v k)
    ]

    local_get-Sound : Triple Sound (local_get h) (λ o w. Vouched V h o × Sound w) Sound
    unfolding local_get pure
    local_get-Sound = record {
      after = λ w s.
          let r =
            fresh-Vouched h w.local_auth w.clock (lookup h w.local_auth) s.0.0
              (lookup-VouchedHit h w.local_auth s.0.0) in
          (r.0, ((r.1, s.0.1), s.1, s.2));
    }

    local_put-Sound : (user : ℕ) → Triple (Good user) (local_put h user) (λ x. Good user) Sound
    unfolding local_put pure
    local_put-Sound user = record {
      after = λ w s.
          (s.0, ((put-Vouches h w.clock user w.local_auth s.0 s.1.0.0, s.1.0.1), s.1.1, s.1.2));
    }

    redis_get-Sound : Triple Sound (redis_get h) (λ o w. Vouched V h o × Sound w) Sound
    unfolding redis_get
    redis_get-Sound =
        Triple-catch {E = Sound} _ _
          (Triple-external (λ w s h. h) _ (λ w s. (s.0.1 h, s)) (λ w s. s) (λ w s. s))
          (λ e. Triple-pure none (λ w s. (tt, s)))

    redis_put-Sound : (user : ℕ) → Triple (Good user) (redis_put h user) (λ x. Good user) Sound
    unfolding redis_put
    redis_put-Sound user =
        Triple-catch {E = Good user} _ _
          (Triple-external (λ w s h. h) _ (λ w s. stored w s) (λ w s. s) (λ w s. stored w s))
          (λ e. Triple-pure tt (λ w s. s))
      where
        stored :
            (w : World)
            → Good user w
            → Good user (record w { auth_cache = put_at h (some user) w.auth_cache })
        stored w s = (s.0, ((s.1.0.0, put_at-Sound user w s.0 s.1.0.1), s.1.1, s.1.2))

    of_result-Good :
        (r : Result ℕ) → check row now ≡ r → Triple Sound (of_result r) (λ user. Good user) Sound
    unfolding of_result
    of_result-Good (Service.ok user) e = Triple-pure user (λ w s. (passes user e, s))
    of_result-Good (raised x) e = Triple-raise x (λ w s. s)

    from_table-Good :
        (o : Option Credential)
        → Triple (λ w. (o ≡ row) × Sound w) (from_table h o) (λ user. Good user) Sound
    unfolding from_table
    from_table-Good o = Triple-given _ λ (e : o ≡ row).
        Triple-bind _ _ (Triple-gets {R = λ ts w. (ts ≡ now) × Sound w} _ (λ w s. (s.2, s))) λ ts.
          Triple-given _ λ (t : ts ≡ now).
            Triple-bind _ _ (of_result-Good (check o ts) (rw (e, t) refl)) λ user.
              Triple-bind _ _ (local_put-Sound user)
                λ x. Triple-bind _ _ (redis_put-Sound user) (λ x. Triple-pure user (λ w s. s))

    fetch-Sound : Triple Sound (fetch_credential raw_token) (λ o w. (o ≡ row) × Sound w) Sound
    unfolding fetch_credential
    fetch-Sound = Triple-external (λ w s h. h) _ (λ w s. (s.1, s)) (λ w s. s) (λ w s. s)

    from_redis-Good :
        (o : Option ℕ)
        → Triple (λ w. Vouched V h o × Sound w) (from_redis raw_token h o) (λ user. Good user) Sound
    unfolding from_redis
    from_redis-Good (some user) =
        Triple-bind _ _ (local_put-Sound user) (λ x. Triple-pure user (λ w s. s))
    from_redis-Good none = Triple-given _ λ x.
        Triple-bind _ _ (Triple-catch {E = Sound} _ _ fetch-Sound (λ e. Triple-raise _ (λ w s. s)))
          from_table-Good

    from_process-Good :
        (o : Option ℕ)
        → Triple
            (λ w. Vouched V h o × Sound w)
            (from_process raw_token h o)
            (λ user. Good user)
            Sound
    unfolding from_process
    from_process-Good (some user) = Triple-pure user (λ w s. s)
    from_process-Good none = Triple-given _ λ x. Triple-bind _ _ redis_get-Sound from_redis-Good

    authenticate-Good : Triple Sound (authenticate false raw_token h) (λ user. Good user) Sound
    unfolding authenticate
    authenticate-Good = Triple-bind _ _ local_get-Sound from_process-Good

-- an answer that names a user names one that may be named
abbrev pub IsVouched : (Text → ℕ → Type 0) → Text → Result ℕ → Type 0
IsVouched V h (Service.ok user) = V h user
IsVouched V h (raised e) = Unit

read :
    (V : Text → ℕ → Type 0) (h : Text) (r : Result ℕ) (w : World)
    → Post (λ user w. V h user × AreSound V w) (AreSound V) r w
    → IsVouched V h r × AreSound V w
read V h (Service.ok user) w p = p
read V h (raised e) w p = (tt, p)

-- Of any relation between tokens and users that holds of both caches and of every user that the
-- table names now: an answer that names a user names one that the relation allows, and the
-- relation still holds of both caches, however the calls end.
pub authenticate-AreSound :
    (V : Text → ℕ → Type 0) (raw_token h : Text) (w : World)
    → ((user : ℕ)
        → check (w.credentials (token_key raw_token)) w.clock ≡ Service.ok user
        → V h user)
    → AreSound V w
    → IsVouched V h (authenticate false raw_token h w).0
      × AreSound V (authenticate false raw_token h w).1
authenticate-AreSound V raw_token h w passes sound =
    read V h (authenticate false raw_token h w).0 (authenticate false raw_token h w).1 (
      (Triple-weak _ (λ v s. s) (λ user v s. (s.0, s.1.0)) (λ v s. s.0)
          (authenticate-Good V raw_token h (w.credentials (token_key raw_token)) w.clock
            passes)).after
        w (sound, refl, refl))
