-- ===== src/Execute/Kept.antt =====
-- What the parts of an execution keep after the lock, if its requests and its ends keep it.
use stask_service.Prelude.{ℕ, zero, suc, ◌+◌, Text, leb, Option, none, some, [], ◌∷◌}
use stask_service.Schemas.{success, failure}
use stask_service.Rows.{TaskData}
use stask_service.Service.{World, Service, Reply, connect_error, broken, response}
use stask_service.Service.Keeps.{Keeps, Keeps-if, Keeps-gets, Keeps-bind, Keeps-option, keeps_rules}
use stask_service.Codec.{Coders}
use stask_service.Execute.{dispatch, with_session, fail_early}
use stask_service.Execute.Settle.{Outcome, Stage, finalize, settle_response}
use stask_service.Execute.Upstream.{request, give_up, break_off, after_reply, call_upstream}

module _ {κ} (P : World → Type κ) (coders : Coders) (p : Text → Text) (u : Text → Text → Text)
    (tid : Text) (d : TaskData) (request-Kept : Keeps P (request tid))
    (failure-Kept : (f : TaskData → TaskData) (reason : Text)
      → Keeps P (finalize tid d failure f reason none))
    (success-Kept : (f : TaskData → TaskData) (url : Option Text)
      → Keeps P (finalize tid d success f [] url)) where
  settle_response-Kept :
      (status : ℕ) (content_type raw : Text) (n : ℕ)
      → Keeps (P) (settle_response coders p u tid d status content_type raw n)
  unfolding settle_response
  settle_response-Kept status content_type raw n =
      search (keeps_rules, failure-Kept, success-Kept) depth 12

  give_up-Kept : (name : Text) (o : Outcome) → Keeps (P) (give_up coders p u tid d name o)
  unfolding give_up
  give_up-Kept name o = search (keeps_rules, failure-Kept) depth 12

  break_off-Kept : (name : Text) (o : Outcome) → Keeps (P) (break_off coders p u tid d name o)
  unfolding break_off
  break_off-Kept name o = search (keeps_rules, failure-Kept) depth 12

  abbrev NextKept : Option (Service Outcome) → Type κ
  NextKept none = Unit
  NextKept (some m) = Keeps (P) m

  after_reply-Kept :
      (a b : Option (Service Outcome)) (n : ℕ) (r : Reply)
      → NextKept a
      → NextKept b
      → Keeps (P) (after_reply coders p u tid d a b n r)
  unfolding after_reply
  after_reply-Kept none b n (connect_error name) ha hb = give_up-Kept name _
  after_reply-Kept (some m) b n (connect_error name) ha hb = ha
  after_reply-Kept a b n (broken name) ha hb = break_off-Kept name _
  after_reply-Kept a none n (response status ct raw) ha hb =
      Keeps-if (leb 500 status) _ _ (settle_response-Kept status ct raw n)
        (settle_response-Kept status ct raw n)
  after_reply-Kept a (some m) n (response status ct raw) ha hb =
      Keeps-if (leb 500 status) _ _ hb (settle_response-Kept status ct raw n)

  call_upstream-Kept : (a b n : ℕ) → Keeps (P) (call_upstream coders p u tid d a b n)
  unfolding call_upstream
  call_upstream-Kept zero zero n =
      Keeps-bind _ _ request-Kept (λ r. after_reply-Kept none none (n + 1) r tt tt)
  call_upstream-Kept (suc a) zero n =
      Keeps-bind _ _ request-Kept
        λ r. after_reply-Kept (some _) none (n + 1) r (call_upstream-Kept a zero (n + 1)) tt
  call_upstream-Kept zero (suc b) n =
      Keeps-bind _ _ request-Kept
        λ r. after_reply-Kept none (some _) (n + 1) r tt (call_upstream-Kept zero b (n + 1))
  call_upstream-Kept (suc a) (suc b) n = Keeps-bind _ _ request-Kept λ r.
      after_reply-Kept (some _) (some _) (n + 1) r (call_upstream-Kept a (suc b) (n + 1))
        (call_upstream-Kept (suc a) b (n + 1))

  fail_early-Kept : (reason : Text) (s : Stage) → Keeps P (fail_early coders p u tid d reason s)
  unfolding fail_early
  fail_early-Kept reason s = search (keeps_rules, failure-Kept) depth 12

  dispatch-Kept : Keeps P (dispatch coders p u tid d)
  unfolding dispatch
  dispatch-Kept =
      Keeps-bind _ _ (Keeps-gets _)
        λ w. Keeps-option _ _ _ (fail_early-Kept _ _) (λ body. call_upstream-Kept _ _ _)

  pub with_session-Kept : (o : Option Text) → Keeps P (with_session coders p u tid d o)
  unfolding with_session
  with_session-Kept none = fail_early-Kept _ _
  with_session-Kept (some []) = fail_early-Kept _ _
  with_session-Kept (some (c ∷ s)) = dispatch-Kept
