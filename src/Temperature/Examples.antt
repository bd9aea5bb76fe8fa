-- ===== src/Temperature/Examples.antt =====
-- pkg/temperature at one node that was notified at the time 10, with a time to live of 5.
use remindb.Prelude.{◌≡◌, false, none, List, [], ◌∷◌, arith, Bytes, codes, All}
use remindb.Store.Rows.{Node}
use remindb.Prelude.Sorting.{contains}
use remindb.Temperature.{dedup_cold, mark_notified}
use remindb.Temperature.Notices.{dedup_cold-mark, dedup_cold_expired}

abbrev cold_node : Bytes → Node
cold_node id = record {
  id = id;
  parent_id = [];
  source_file = [];
  node_type = [];
  depth = 0;
  label = [];
  content = [];
  format = [];
  token_count = 1;
  content_hash = [];
  temperature = 0;
  access_count = 0;
  last_accessed = none;
  created_at = 0;
  updated_at = 0;
  pinned = false;
  seed_pinned = false;
  seed_temp = none;
}

abbrev cold : List Node
cold = cold_node (codes "a") ∷ cold_node (codes "b") ∷ []

dedup_cold-mark_example :
    All
      (λ n. contains n.id (codes "a" ∷ []) ≡ false)
      (dedup_cold 5 14 cold (mark_notified 10 (codes "a" ∷ []) [])).0
dedup_cold-mark_example = dedup_cold-mark 5 10 14 (codes "a" ∷ []) cold [] (omega arith)

dedup_cold_expired_example : dedup_cold 5 16 cold ((codes "a", 10) ∷ []) ≡ (cold, [])
dedup_cold_expired_example = dedup_cold_expired 5 16 cold ((codes "a", 10) ∷ []) (omega arith, tt)
