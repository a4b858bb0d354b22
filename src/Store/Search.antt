-- ===== src/Store/Search.antt =====
-- app/services/taskstore/_admin_query.py, `search`, with `_validate_search_params` and
-- `_escape_like_prefix` of _base.py: the list of tasks for an operator. Texts are compared with
-- regard to case, and a row stands in the table behind those with a smaller `id`.
pub mod Like
pub mod Wanted
pub mod Paging
use stask_service.Prelude.{
  ℕ, zero, suc, ◌+◌, ◌-◌, ◌*◌, Text, text_eq, Bool, true, false, not, any, ltb, leb, ◌&&◌, ◌||◌,
  ◌==◌, if◌then◌else◌, length, take, Option, none, some, List, [], ◌∷◌, ◌++◌,
}
use stask_service.Schemas.{Status, status_eq}
use stask_service.Rows.{Row}
use stask_service.Gate.{is_blank}
use stask_service.Service.{World, Service, http, pure, raise, external, ◌>>=◌}
use stask_service.Store.{as_unix_seconds, now, count_where}

pub record Query : Type 0 where
  pub status : Option Status
  pub model : Text
  pub task_id : Text
  pub task_id_prefix : Text
  pub since_seconds : ℕ
  pub limit : ℕ
  pub offset : ℕ

abbrev pub backslash : ℕ
backslash = 92

abbrev holds_code : ℕ → Text → Bool
holds_code c s = any (λ d. d == c) s

-- false is a ValueError
unfoldable pub validate_search_params : Query → Bool
validate_search_params q =
    if not (is_blank q.task_id) && not (is_blank q.task_id_prefix)
    then false
    else if ltb 64 (length q.task_id)
    then false
    else if ltb 64 (length q.task_id_prefix)
    then false
    else if holds_code b'%' q.task_id || holds_code backslash q.task_id
    then false
    else if holds_code b'%' q.task_id_prefix || holds_code backslash q.task_id_prefix
    then false
    else if ltb (7 * 86400) q.since_seconds
    then false
    else if not (leb 1 q.limit && leb q.limit 200)
    then false
    else leb q.offset 10000

-- `s.replace(c, "\\" + c)`
unfoldable pub escape_code : ℕ → Text → Text
escape_code c [] = []
escape_code c (d ∷ s) =
    let rest = escape_code c s in if d == c then backslash ∷ d ∷ rest else d ∷ rest

unfoldable pub escape_like_prefix : Text → Text
escape_like_prefix s = escape_code b'_' (escape_code b'%' (escape_code backslash s))

-- the operator LIKE of SQL
unfoldable pub on_head : (ℕ → Bool) → (Text → Bool) → Text → Bool
on_head test rest [] = false
on_head test rest (c ∷ s) = test c && rest s

unfoldable pub on_suffix : (Text → Bool) → Text → Bool
on_suffix rest [] = rest []
on_suffix rest (c ∷ s) = rest (c ∷ s) || on_suffix rest s

abbrev equals : ℕ → ℕ → Bool
equals d c = c == d

unfoldable pub like : Text → Text → Bool
unfolding on_head on_suffix
like [] s = is_blank s
like (c ∷ []) s =
    if c == b'%'
    then on_suffix is_blank s
    else if c == b'_'
    then on_head (λ d. true) is_blank s
    else on_head (equals c) is_blank s
like (c ∷ d ∷ p) s =
    let rest = like (d ∷ p) in
    let after = like p in
    if c == b'%'
    then on_suffix rest s
    else if c == b'_'
    then on_head (λ e. true) rest s
    else if c == backslash
    then on_head (equals d) after s
    else on_head (equals c) rest s

id_matches : Query → Row → Bool
id_matches q r =
    if not (is_blank q.task_id)
    then text_eq r.task_id q.task_id
    else if not (is_blank q.task_id_prefix)
    then like (escape_like_prefix q.task_id_prefix ++ b'%' ∷ []) r.task_id
    else true

status_matches : Option Status → Row → Bool
status_matches none r = true
status_matches (some st) r = status_eq r.status st

-- the WHERE clause, `created_at > now - since_seconds` in it
unfoldable pub clause : Query → ℕ → Row → Bool
unfolding id_matches status_matches
clause q ts r =
    status_matches q.status r
    && ((is_blank q.model || text_eq r.task_data.model q.model)
        && (id_matches q r && (q.since_seconds == 0 || ltb ts (r.created_at + q.since_seconds))))

unfoldable pub select_where : (Row → Bool) → List Row → List Row
select_where test [] = []
select_where test (r ∷ rs) = let rest = select_where test rs in if test r then r ∷ rest else rest

-- ORDER BY id DESC
unfoldable pub by_id_desc : List Row → List Row
by_id_desc [] = []
by_id_desc (r ∷ rs) = by_id_desc rs ++ r ∷ []

-- OFFSET
unfoldable pub skip : ℕ → List Row → List Row
skip zero rs = rs
skip (suc n) [] = []
skip (suc n) (r ∷ rs) = skip n rs

pub record Item : Type 0 where
  pub task_id : Text
  pub status : Status
  pub fail_reason : Text
  pub channel_id : ℕ
  pub user_id : ℕ
  pub created_at : ℕ
  pub start_time : ℕ
  pub finish_time : ℕ
  pub duration : ℕ
  pub model : Text
  pub request_path : Text
  pub upstream_status : ℕ
  pub response_bytes : ℕ
  pub result_purged : Bool
  pub result_url : Text

duration_of : ℕ → ℕ → ℕ
duration_of finish start =
    if not (finish == 0) && (not (start == 0) && leb start finish) then finish - start else 0

item_of : Row → Item
unfolding duration_of
item_of r = record {
  task_id = r.task_id;
  status = r.status;
  fail_reason = r.fail_reason;
  channel_id = r.channel_id;
  user_id = r.user_id;
  created_at = as_unix_seconds r.created_at;
  start_time = as_unix_seconds r.start_time;
  finish_time = as_unix_seconds r.finish_time;
  duration = duration_of (as_unix_seconds r.finish_time) (as_unix_seconds r.start_time);
  model = r.task_data.model;
  request_path = r.task_data.request_path;
  upstream_status = r.task_data.upstream_status;
  response_bytes = r.task_data.response_bytes;
  result_purged = r.task_data.result_purged;
  result_url = r.task_data.result_url;
}

unfoldable pub items_of : List Row → List Item
unfolding item_of
items_of [] = []
items_of (r ∷ rs) = item_of r ∷ items_of rs

unfoldable pub page_of : Query → ℕ → List Row → List Row
page_of q ts rows = take q.limit (skip q.offset (by_id_desc (select_where (clause q ts) rows)))

pub record Page : Type 0 where
  pub total : ℕ
  pub items : List Item

-- the two queries of a `gather`, one after the other
unfoldable pub search : Query → Service Page
search q =
    if validate_search_params q
    then (do
      ts ← now
      total ← external (λ w. (count_where (clause q ts) w.rows, w))
      rows ← external (λ w. (page_of q ts w.rows, w))
      pure (record { total = total; items = items_of rows }))
    else raise (http 400)
