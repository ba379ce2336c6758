-- ===== src/Tests/Maps.antt =====
-- The sorted map on concrete keys.
use lsm_kv_store.Base.{ℕ, ◌≡◌, refl, while, ◌+◌, ◌*◌, ◌^◌, ◌≤◌, [], ◌∷◌}
use lsm_kv_store.Text.{compare_keys}
use lsm_kv_store.Assoc.{upsert, within}
use lsm_kv_store.SortedMap
use lsm_kv_store.SortedMap.{SortedMap, node, leaf, black, red}
use lsm_kv_store.SortedMap.Valid.{IsValid, empty-IsValid, set-IsValid, entries-set}
use lsm_kv_store.SortedMap.Range.{range-eq-within}
use lsm_kv_store.SortedMap.Height.{height, set_all, height-set_all}
use lsm_kv_store.Tests.Samples.{apple, berry, cherry, date}

abbrev one : SortedMap ℕ
one = SortedMap.set SortedMap.empty cherry 3

abbrev two : SortedMap ℕ
two = SortedMap.set one berry 2

abbrev three : SortedMap ℕ
three = SortedMap.set two apple 1

three-IsValid : IsValid three
three-IsValid =
    set-IsValid two apple 1
      (set-IsValid one berry 2 (set-IsValid SortedMap.empty cherry 3 empty-IsValid))

-- Three descending keys rotate once and keep their order.
three_shape :
    three.root ≡ node black (node red leaf apple 1 leaf) berry 2 (node red leaf cherry 3 leaf)
unfolding SortedMap.set compare_keys SortedMap.plug while SortedMap.fix_insert_round
three_shape = refl

entries-three : SortedMap.entries three ≡ (apple, 1) ∷ (berry, 2) ∷ (cherry, 3) ∷ []
unfolding SortedMap.entries SortedMap.set compare_keys SortedMap.plug while
    SortedMap.fix_insert_round
entries-three = refl

set-IsValid_example : IsValid (SortedMap.set three date 4)
set-IsValid_example = set-IsValid three date 4 three-IsValid

entries-set_example :
    SortedMap.entries (SortedMap.set three date 4) ≡ upsert date 4 (SortedMap.entries three)
entries-set_example = entries-set three date 4 three-IsValid

range-eq-within_example :
    SortedMap.range three berry date ≡ within berry date (SortedMap.entries three)
range-eq-within_example = range-eq-within three berry date three-IsValid.sorted

height-set_all_example :
    (b : ℕ) × (height (set_all three ((date, 4) ∷ (apple, 5) ∷ [])).root ≤ 2 * b)
    × (2 ^ b ≤ (set_all three ((date, 4) ∷ (apple, 5) ∷ [])).count + 1)
height-set_all_example = height-set_all three ((date, 4) ∷ (apple, 5) ∷ []) three-IsValid
