-- ===== src/Trajectory/Tests.antt =====
-- A recorded block (src/primal_ai/trajectory/_core.py) with a tool call that fails.
use primal_core.Base.{
  ℕ, ◌≡◌, refl, String, some, none, [], ◌∷◌, List, map, length, returned, raised, exception, get_or,
  head?, arith,
}
use primal_core.Base.Dict.{get, put, pop}
use primal_core.Base.Int.{pos}
use primal_core.Base.Value.{null, str, float, field, end}
use primal_core.Base.Python.{Python, IsPython}
use primal_core.Storage.{memory_storage, memory_storage-IsLawful}
use primal_core.Trajectory.Steps.{Stamp}
use primal_core.Trajectory.{Trajectory, init, ExcInfo, find_steps}
use primal_core.Trajectory.Counts.{Summary, summary, spent}
use primal_core.Trajectory.Totals.{summary_totals, data_of}
use primal_core.Trajectory.Serial.{to_dict, from_dict, save, load, trajectory_key}
use primal_core.Trajectory.RoundTrip.{stored, from_dict-to_dict, load-save}
use primal_core.Trajectory.Session.{World, Instant, enter}
use primal_core.Trajectory.Ops.{Op, input, tool_call, tool_result, perform, step_of}
use primal_core.Trajectory.Blocks.{with_block, Left, with_block-Left}
use primal_core.Trajectory.Spans.{IsPaired, with_block-IsPaired}

abbrev stamp : String → ℕ → Stamp
stamp id n = record { step_id = id; timestamp = pos n; monotonic = pos n }

abbrev at : ℕ → Instant
at n = record { wall = pos n; monotonic = pos n }

abbrev calls : List Op
calls =
    input (stamp "a" 1) (field "q" (str "x") end)
    ∷ tool_call (stamp "b" 2) "search" end
    ∷ tool_result (stamp "c" 3) "b" (str "hit") (float (pos 20000)) null
    ∷ tool_call (stamp "d" 4) "search" end
    ∷ []

abbrev broken : ExcInfo
broken = record { type_name = "RuntimeError"; message = "down"; traceback = "..." }

abbrev empty : Trajectory
empty = init "t1" none (str "agent") null

abbrev full : Trajectory
full = record empty { steps = map step_of calls }

abbrev world : World memory_storage
world = record { current_trajectory = some "outer"; default_store = some [] }

abbrev plain : Python
plain = record {
  str_of = λ v. elim v [ str s ↦ s | _ ↦ "other" ];
  parse_float = λ s. raised (exception "ValueError" s);
  dict_of = λ v. raised (exception "TypeError" "not a mapping");
  lower = λ s. s;
}

plain-IsPython : IsPython plain
plain-IsPython = record { str_of-str = λ s. refl }

with_block-Left_example :
    Left
      (map step_of calls)
      (stamp "e" 6)
      (some broken)
      empty
      world
      (with_block (λ s. s) (at 1) calls (stamp "e" 6) (some broken) (at 7) (empty, world))
unfolding init
with_block-Left_example =
    with_block-Left (λ s. s) (at 1) calls (stamp "e" 6) (some broken) (at 7) empty world tt
      (refl, (refl, (refl, (refl, tt))))

with_block-IsPaired_example :
    IsPaired
      (with_block (λ s. s) (at 1) calls (stamp "e" 6) (some broken) (at 7) (empty, world)).1.0
unfolding init enter get put pop perform
with_block-IsPaired_example =
    with_block-IsPaired (λ s. s) (at 1) calls (stamp "e" 6) (some broken) (at 7) empty world tt
      (refl, (refl, (refl, (refl, tt)))) (λ id. (refl, omega arith)) (tt, (refl, (tt, (refl, tt))))

summary_totals_example :
    (s : Summary) × (summary (pos 9) full ≡ returned s)
    × (s.step_count ≡ 4)
    × ((k : String) → get_or (get k s.step_kinds) 0 ≡ length (find_steps (some k) none full))
    × (s.total_cost ≡ spent (pos 0) full.steps)
    × (s.error ≡ data_of (head? (find_steps (some "ERROR") none full)))
summary_totals_example = summary_totals (pos 9) full (refl, (refl, (refl, (refl, tt))))

from_dict-to_dict_example : from_dict plain "" (stamp "z") (to_dict full) ≡ returned (stored full)
unfolding init
from_dict-to_dict_example =
    from_dict-to_dict plain plain-IsPython "" (stamp "z") full refl
      ((refl, refl, refl), ((refl, refl, refl), ((refl, refl, refl), ((refl, refl, refl), tt))))

load-save_example :
    (load memory_storage plain "" (stamp "z") "t1" (save memory_storage full [])
      ≡ returned (stored full))
    × (load memory_storage plain ""
          (stamp "z")
          "t1"
          (memory_storage.delete (trajectory_key "t1") (save memory_storage full []))
        ≡ raised (exception "KeyError" "t1"))
unfolding init
load-save_example =
    load-save plain plain-IsPython memory_storage memory_storage-IsLawful "" (stamp "z") full []
      refl
      ((refl, refl, refl), ((refl, refl, refl), ((refl, refl, refl), ((refl, refl, refl), tt))))
