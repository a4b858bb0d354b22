-- ===== src/Execute/Overtaken.antt =====
-- An execution whose task was advanced by somebody else between its read and its transition.
use stask_service.Prelude.{
  ℕ, zero, Text, true, false, leb, Option, none, some, List, [], ◌∷◌, ◌++◌, ◌≡◌, refl, arith, ap,
}
use stask_service.Schemas.{Status, failure, active, is_among}
use stask_service.Rows.{Row, TaskData}
use stask_service.Service
use stask_service.Service.{
  World, Service, Result, raised, Reply, connect_error, broken, response, pure, gets, external,
  catch, when, ◌>>=◌,
}
use stask_service.Service.Keeps.{Keeps, Keeps-pure, Keeps-if, Keeps-bind}
use stask_service.Service.Triples.{
  Triple, Triple-given, Post, Triple-bind, Triple-gets, Triple-answered, Triple-keeps, Triple-pure,
  Triple-weak, Triple-if, Triple-catch,
}
use stask_service.Store.{cas, cache_status}
use stask_service.Sessions
use stask_service.Codec.{Coders}
use stask_service.Execute.{acquire_dispatch_lock, dispatch, with_session, run_row}
use stask_service.Execute.Settle.{Outcome}
use stask_service.Execute.Upstream.{request, give_up, break_off, after_reply, call_upstream}
use stask_service.Execute.Silent.{finalize-On, settle_response-On}

module _ (tid : Text) (token : Text) (c : ℕ) (calls : List Text) where
  -- Every call is answered, nobody holds the lock, the session is there, and there are no retries.
  abbrev pub Free : World → Type 0
  Free w =
      (w.script ≡ [])
      × (w.calls ≡ calls)
      × (w.locks tid ≡ none)
      × (w.sessions tid ≡ some (c ∷ token))
      × (w.config.retry_max ≡ 0)
      × (w.config.retry_max_connect ≡ 0)

  abbrev Locked : World → Type 0
  Locked w =
      (w.script ≡ [])
      × (w.calls ≡ calls)
      × (w.sessions tid ≡ some (c ∷ token))
      × (w.config.retry_max ≡ 0)
      × (w.config.retry_max_connect ≡ 0)

  abbrev CalledOnce : World → Type 0
  CalledOnce w = w.calls ≡ calls ++ tid ∷ []

  cache_status-Free : (s : Status) → Triple Free (cache_status tid s) (λ x. Free) (λ w. ⊥)
  unfolding cache_status
  cache_status-Free s =
      Triple-catch {E = λ w. ⊥} _ _ (Triple-answered (λ w h. h.0) _ (λ w h. h))
        (λ e. Triple-pure tt (λ w h. elim h [ ]))

  cas-Free :
      (froms : List Status) (to : Status) (f : TaskData → TaskData) (reason : Text)
      (url : Option Text)
      → Triple Free (cas tid froms to f reason url) (λ b. Free) (λ w. ⊥)
  unfolding cas
  cas-Free froms to f reason url = Triple-bind _ _ (Triple-gets {R = λ ts. Free} _ (λ w h. h)) λ ts.
      Triple-bind _ _ (Triple-answered {R = λ b. Free} (λ w h. h.0) _ (λ w h. h)) λ won.
        Triple-bind _ _
          (Triple-if won _ _ (λ e. cache_status-Free to)
            (λ e. Triple-pure {R = λ x. Free} tt (λ w h. h)))
          (λ x. Triple-pure won (λ w h. h))

  lock-Free :
      (n : ℕ) → Triple Free (acquire_dispatch_lock tid n) (λ b w. (b ≡ true) × Locked w) (λ w. ⊥)
  unfolding acquire_dispatch_lock
  lock-Free n =
      Triple-catch {E = λ w. ⊥} _ _
        (Triple-answered (λ w h. h.0) _ (λ w h. rw h.2 (refl, (h.0, h.1, h.3, h.4, h.5))))
        (λ e. Triple-pure false (λ w h. elim h [ ]))

  request-CalledOnce : Triple (λ w. w.calls ≡ calls) (request tid) (λ r. CalledOnce) CalledOnce
  unfolding request pure
  request-CalledOnce = record { after = λ w h. ap (λ l. l ++ tid ∷ []) h }

  silent {ℓ} :
      {A : Type ℓ} (m : Service A)
      → Keeps CalledOnce m
      → Triple CalledOnce m (λ a. CalledOnce) CalledOnce
  silent m k = Triple-keeps m k

  module _ (coders : Coders) (p : Text → Text) (u : Text → Text → Text) (d : TaskData) where
    abbrev OnceMore : List Text → (Text → Option ℕ) → Type 0
    OnceMore l locks = l ≡ calls ++ tid ∷ []

    last_reply : (n : ℕ) (r : Reply) → Keeps CalledOnce (after_reply coders p u tid d none none n r)
    unfolding after_reply give_up break_off
    last_reply n (connect_error name) =
        Keeps-bind _ _ (finalize-On OnceMore tid d failure _ _ none) (λ x. Keeps-pure _)
    last_reply n (broken name) =
        Keeps-bind _ _ (finalize-On OnceMore tid d failure _ _ none) (λ x. Keeps-pure _)
    last_reply n (response status ct raw) =
        Keeps-if (leb 500 status) _ _ (settle_response-On OnceMore coders p u tid d status ct raw n)
          (settle_response-On OnceMore coders p u tid d status ct raw n)

    one_call :
        Triple
          (λ w. w.calls ≡ calls)
          (call_upstream coders p u tid d zero zero 0)
          (λ o. CalledOnce)
          CalledOnce
    unfolding call_upstream
    one_call = Triple-bind _ _ request-CalledOnce (λ r. Triple-keeps _ (last_reply 1 r))

    dispatch-CalledOnce :
        d.request_body ≡ [] → Triple Locked (dispatch coders p u tid d) (λ o. CalledOnce) CalledOnce
    unfolding dispatch
    dispatch-CalledOnce blank =
        Triple-bind _ _
          (Triple-gets
            {R = λ v w.
              ((v.config.retry_max ≡ 0) × (v.config.retry_max_connect ≡ 0)) × (w.calls ≡ calls)}
            _ (λ w h. ((h.3, h.4), h.1)))
          λ v. Triple-given _ λ e. rw (blank, e.0, e.1) one_call

    none_not_some : none ≡ some (c ∷ token) → ⊥
    none_not_some e = ground arith

    empty_not_full : some [] ≡ some (c ∷ token) → ⊥
    empty_not_full e = cc

    session-CalledOnce :
        (o : Option Text)
        → d.request_body ≡ []
        → Triple
            (λ w. (o ≡ some (c ∷ token)) × Locked w)
            (with_session coders p u tid d o)
            (λ o. CalledOnce)
            CalledOnce
    unfolding with_session
    session-CalledOnce none blank = Triple-given _ λ e. elim (none_not_some e) [ ]
    session-CalledOnce (some []) blank = Triple-given _ λ e. elim (empty_not_full e) [ ]
    session-CalledOnce (some (x ∷ s)) blank = Triple-given _ λ e. dispatch-CalledOnce blank

    run_row-CalledOnce :
        (row : Row)
        → row.task_data ≡ d
        → is_among row.status active ≡ true
        → d.request_body ≡ []
        → Triple Free (run_row coders p u tid row) (λ o. CalledOnce) CalledOnce
    unfolding run_row Sessions.get
    run_row-CalledOnce row same alive blank =
        rw (alive, same)
          (Triple-bind _ _
            (Triple-weak _ (λ w h. h) (λ a w h. h) (λ w h. elim h [ ]) (cas-Free _ _ _ _ _))
            λ b.
              Triple-bind _ _
                (Triple-weak _ (λ w h. h) (λ a w h. h) (λ w h. elim h [ ]) (lock-Free _))
                λ locked. Triple-given _ λ e. rw e (
                  Triple-bind _ _
                    (Triple-answered {R = λ o w. (o ≡ some (c ∷ token)) × Locked w} (λ w h. h.0) _
                      (λ w h. (h.2, h)))
                    (λ o. session-CalledOnce o blank)))

read : (P : World → Type 0) (r : Result Outcome) (w : World) → Post (λ o. P) P r w → P w
read P (Service.ok o) w h = h
read P (raised e) w h = h

-- Where every call is answered, the lock is free, the session is there, the stored body is empty and
-- no retries are configured, an execution that has read an active row calls upstream, whatever the
-- row in the table has become since: that the transition to IN_PROGRESS is lost does not stop it.
pub run_row-overtaken :
    (coders : Coders) (parse_for_store : Text → Text) (upstream_error_detail : Text → Text → Text)
    (tid token : Text) (c : ℕ) (row : Row) (w : World)
    → is_among row.status active ≡ true
    → row.task_data.request_body ≡ []
    → Free tid token c w.calls w
    → (run_row coders parse_for_store upstream_error_detail tid row w).1.calls ≡ w.calls ++ tid ∷ []
run_row-overtaken coders p u tid token c row w alive blank free =
    read (CalledOnce tid token c w.calls) (run_row coders p u tid row w).0
      (run_row coders p u tid row w).1
      ((run_row-CalledOnce tid token c w.calls coders p u row.task_data row refl alive blank).after
        w free)
