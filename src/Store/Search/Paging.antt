-- ===== src/Store/Search/Paging.antt =====
-- What a page of a search lists.
use mathlib.Core.List.{reverse, reverse-cons}
use stask_service.Prelude.{
  ℕ, zero, suc, ◌-◌, min, Bool, true, false, if◌then◌else◌, length, take, List, [], ◌∷◌, ◌++◌,
  length-append, ◌≡◌, refl, ap, sym, ◌∙◌, arith, Bool-cases, inl, inr,
}
use stask_service.Rows.{Row}
use stask_service.Service.{World, ok}
use stask_service.Store.{count_where}
use stask_service.Store.Search.{
  Query, Page, validate_search_params, clause, select_where, by_id_desc, skip, items_of, page_of,
  search,
}
use stask_service.Store.Search.Wanted.{
  Wanted, IsOneWay, validate_search_params-IsOneWay, clause-Wanted, clause-unwanted,
}

counted :
    (b : Bool) (r : Row) (rs : List Row) (n : ℕ)
    → length rs ≡ n
    → length (if b then r ∷ rs else rs) ≡ (if b then suc n else n)
counted true r rs n h = ap suc h
counted false r rs n h = h

length-select_where :
    (test : Row → Bool) (rs : List Row) → length (select_where test rs) ≡ count_where test rs
unfolding select_where count_where
length-select_where test [] = refl
length-select_where test (r ∷ rs) =
    counted (test r) r (select_where test rs) _ (length-select_where test rs)

by_id_desc-reverse : (rs : List Row) → by_id_desc rs ≡ reverse rs
unfolding by_id_desc
by_id_desc-reverse [] = refl
by_id_desc-reverse (r ∷ rs) =
    ap (λ xs. xs ++ r ∷ []) (by_id_desc-reverse rs) ∙ sym (reverse-cons r rs)

length-by_id_desc : (rs : List Row) → length (by_id_desc rs) ≡ length rs
unfolding by_id_desc
length-by_id_desc [] = refl
length-by_id_desc (r ∷ rs) =
    omega (arith, length-append (by_id_desc rs) (r ∷ []), length-by_id_desc rs)

length-skip : (n : ℕ) (rs : List Row) → length (skip n rs) ≡ length rs - n
unfolding skip
length-skip zero rs = omega arith
length-skip (suc n) [] = omega arith
length-skip (suc n) (r ∷ rs) = omega (arith, length-skip n rs)

length-take-min : (n : ℕ) (rs : List Row) → length (take n rs) ≡ min n (length rs)
length-take-min zero rs = omega arith
length-take-min (suc n) [] = omega arith
length-take-min (suc n) (r ∷ rs) = omega (arith, length-take-min n rs)

take-skip : (n : ℕ) (rs : List Row) → rs ≡ take n rs ++ skip n rs
unfolding skip
take-skip zero rs = refl
take-skip (suc n) [] = refl
take-skip (suc n) (r ∷ rs) = ap (λ xs. r ∷ xs) (take-skip n rs)

-- the second list has the rows of the first one that are wanted, in the same order
pub data Chosen (P : Row → Type 0) : List Row → List Row → Type 0 where
  nothing : Chosen P [] []
  taken : (r : Row) (rs found : List Row) → P r → Chosen P rs found → Chosen P (r ∷ rs) (r ∷ found)
  left : (r : Row) (rs found : List Row) → (P r → ⊥) → Chosen P rs found → Chosen P (r ∷ rs) found

select_where-Chosen :
    (q : Query) (ts : ℕ) (rs : List Row)
    → IsOneWay q
    → Chosen (Wanted q ts) rs (select_where (clause q ts) rs)
unfolding select_where
select_where-Chosen q ts [] one = nothing
select_where-Chosen q ts (r ∷ rs) one = elim (Bool-cases (clause q ts r)) [
  | inl e ↦ rw e (taken r rs _ (clause-Wanted q ts r one e) (select_where-Chosen q ts rs one))
  | inr e ↦ rw e (left r rs _ (clause-unwanted q ts r e) (select_where-Chosen q ts rs one))
]

-- A page of what a search finds. The row with the greatest `id` stands last in the table.
pub record IsPage (q : Query) (w : World) (p : Page) : Type 0 where
  pub found : List Row
  pub chosen : Chosen (Wanted q w.clock) w.rows found
  pub newer : List Row
  pub listed : List Row
  pub older : List Row
  pub order : reverse found ≡ newer ++ (listed ++ older)
  pub skipped : length newer ≡ min q.offset (length found)
  pub fits : length listed ≡ min q.limit (length found - q.offset)
  pub total : p.total ≡ length found
  pub items : p.items ≡ items_of listed

page_of-IsPage :
    (q : Query) (w : World)
    → IsOneWay q
    → IsPage q w (record {
      total = count_where (clause q w.clock) w.rows;
      items = items_of (page_of q w.clock w.rows);
    })
unfolding page_of
page_of-IsPage q w one =
    let found : List Row = select_where (clause q w.clock) w.rows in
    let rest : List Row = skip q.offset (by_id_desc found) in
    record {
      found = found;
      chosen = select_where-Chosen q w.clock w.rows one;
      newer = take q.offset (by_id_desc found);
      listed = take q.limit rest;
      older = skip q.limit rest;
      order =
          sym (by_id_desc-reverse found)
          ∙ (take-skip q.offset (by_id_desc found)
              ∙ ap (λ xs. take q.offset (by_id_desc found) ++ xs) (take-skip q.limit rest));
      skipped = omega (arith, length-take-min q.offset (by_id_desc found), length-by_id_desc found);
      fits = omega (
        arith,
        length-take-min q.limit rest,
        length-skip q.offset (by_id_desc found),
        length-by_id_desc found,
      );
      total = sym (length-select_where (clause q w.clock) w.rows);
      items = refl;
    }

-- A search with valid parameters, where every call is answered, finds the rows of the table that
-- the parameters ask for, and no others: those with the status, the model and the id that are
-- given, an id that starts with the prefix, and not older than asked. It answers with their
-- number, and lists them from the newest to the oldest, without the first `offset` and then
-- `limit` of them, or as many as there are.
pub search-IsPage :
    (q : Query) (w : World)
    → validate_search_params q ≡ true
    → (p : Page) × ((search q (record w { script = [] })).0 ≡ ok p × IsPage q w p)
unfolding search stask_service.Service.◌>>=◌ stask_service.Service.gets
    stask_service.Service.external stask_service.Service.pure
search-IsPage q w h =
    let p : Page = record {
      total = count_where (clause q w.clock) w.rows;
      items = items_of (page_of q w.clock w.rows);
    } in
    rw h (p, (refl, page_of-IsPage q w (validate_search_params-IsOneWay q h)))
