-- ===== src/Tests/Searches.antt =====
-- A search of an operator.
use stask_service.Prelude.{codes, none, [], ◌∷◌, ◌++◌, ◌≡◌, refl}
use stask_service.Policy.Resolve.{starts_with}
use stask_service.Service.{ok}
use stask_service.Store.Search.{Query, Page, search, like, escape_like_prefix}
use stask_service.Store.Search.Like.{like-escape_like_prefix}
use stask_service.Store.Search.Paging.{IsPage, search-IsPage}
use stask_service.Tests.Worlds.{some_world}

like-escape_like_prefix_example :
    like (escape_like_prefix (codes "gpt_") ++ b'%' ∷ []) (codes "gptx1")
    ≡ starts_with (codes "gptx1") (codes "gpt_")
like-escape_like_prefix_example = like-escape_like_prefix (codes "gpt_") (codes "gptx1")

abbrev by_prefix : Query
by_prefix = record {
  status = none;
  model = [];
  task_id = [];
  task_id_prefix = codes "gpt_";
  since_seconds = 0;
  limit = 50;
  offset = 0;
}

search-IsPage_example :
    (p : Page) × ((search by_prefix (record some_world { script = [] })).0 ≡ ok p
      × IsPage by_prefix some_world p)
unfolding stask_service.Store.Search.validate_search_params
search-IsPage_example = search-IsPage by_prefix some_world refl
