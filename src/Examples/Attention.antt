-- ===== src/Examples/Attention.antt =====
-- The theorem on tasks that wait for a human, at a ledger of one mission and three tasks.
use cmap.Common.{◌≡◌, ◌&&◌, refl, [], ◌∷◌, get, put, has, values, if◌then◌else◌}
use cmap.TaskState.{running, input_required, failed_terminal}
use cmap.Entities.{is_terminal_mission}
use cmap.Store.{MemoryStore, empty_store}
use cmap.Store.Attention.{amount, or_zeros, count_mission_attention}
use cmap.Store.Attention.Counting.{is_live, tasks_in, needs_attention, attention_is_counted}
use package.cmap.Examples.{mission_one, task_one}

abbrev three_tasks : MemoryStore
three_tasks = record empty_store {
  missions = ("m1", mission_one) ∷ [];
  tasks =
      ("t1", record task_one { state = input_required })
      ∷ ("t2", record task_one { state = running })
      ∷ ("t3", record task_one { state = input_required })
      ∷ [];
}

attention_is_counted_example :
    (amount input_required (or_zeros (get (count_mission_attention "acme" three_tasks) "m1")) ≡ (
      if is_live "acme" "m1" three_tasks.missions
      then tasks_in input_required "m1" (values three_tasks.tasks)
      else 0))
    × (has (count_mission_attention "acme" three_tasks) "m1" ≡ (
        is_live "acme" "m1" three_tasks.missions
        && needs_attention "m1" (values three_tasks.tasks)))
attention_is_counted_example = attention_is_counted "acme" three_tasks "m1" input_required refl

two_wait :
    amount input_required (or_zeros (get (count_mission_attention "acme" three_tasks) "m1")) ≡ 2
unfolding get values put is_terminal_mission
two_wait = refl

none_failed :
    amount failed_terminal (or_zeros (get (count_mission_attention "acme" three_tasks) "m1")) ≡ 0
unfolding get values put is_terminal_mission
none_failed = refl
