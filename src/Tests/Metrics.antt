-- ===== src/Tests/Metrics.antt =====
-- Metrics of one publisher.
use logstore_archive.Base.{◌≡◌, refl, [], ◌∷◌}
use logstore_archive.Base.JsMap
use logstore_archive.Validator.Metrics.{Metrics, update, update_all}

abbrev started : Metrics
started = record { seq_nums = ("p", 3) ∷ []; bytes = 10; count = 1; lost = 0 }

-- 4 and 5 never arrive
lost_two : (update_all started "p" (6 ∷ 7 ∷ []) 1).lost ≡ 2
unfolding update_all update JsMap.get JsMap.set
lost_two = refl
