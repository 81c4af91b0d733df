-- ===== src/Tests/Pages.antt =====
-- Two stores on a server that gives one a page.
use logstore_archive.Base.{
  ℕ, String, ◌≡◌, refl, ap, ◌∙◌, List, [], ◌∷◌, ◌++◌, arith, str_eq, if◌then◌else◌,
}
use logstore_archive.Base.Result.{Result, ok}
use logstore_archive.Client.GraphQl.{fetch_paginated_results, fetch_from, complete, unfinished}
use logstore_archive.Client.GraphQl.Pages.{take, fetch_paginated_results-all}

abbrev two_stores : List String
two_stores = "a" ∷ "b" ∷ []

abbrev after : String → List String
after s = if str_eq s "" then two_stores else if str_eq s "a" then "b" ∷ [] else []

abbrev give : String → ℕ → Result String (List String)
give s n = ok (take n (after s))

after-two :
    (before : List String) (x : String) (rest : List String)
    → two_stores ≡ before ++ x ∷ rest
    → after x ≡ rest
after-two [] x rest e = let same : x ≡ "a" = cc (e) in ap after same ∙ cc (e)
after-two (y ∷ []) x rest e = let same : x ≡ "b" = cc (e) in ap after same ∙ cc (e)
after-two (y ∷ z ∷ []) x rest e = absurd (cc e)
after-two (y ∷ z ∷ w ∷ ws) x rest e = absurd (cc e)

fetch_paginated_results-all_example :
    fetch_paginated_results (λ s. s) give 1 3 ≡ (two_stores, complete)
fetch_paginated_results-all_example =
    fetch_paginated_results-all (λ s. s) give 0 two_stores after (λ s. refl) after-two 3 refl
      (omega arith)

-- Three requests are needed: the last one shows that nothing is left.
two_requests : fetch_paginated_results (λ s. s) give 1 2 ≡ (two_stores, unfinished)
unfolding fetch_from take
two_requests = refl
