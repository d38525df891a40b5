-- ===== src/PerfEval/Mode2/Phases.antt =====
-- What the events of `run_mode2` in llm-perf-eval.py make of the model.
use dev_llmops.Prelude.{String, Bool, true, false, ◌||◌, Option, none, some, [], ◌∷◌, if◌then◌else◌}
use dev_llmops.Prelude.Dict.{str_eq}
use dev_llmops.PerfEval.Events.{Event, start, health, stop, warmup, bench, History}

-- The model: down, started with a command, or found healthy after that.
pub data Phase : Type 0 where
  off : Phase
  started ready : String → Phase

abbrev pub is_ready : Phase → Bool
is_ready (ready c) = true
is_ready _ = false

abbrev pub checked : Bool → Phase → Option Phase
checked true (started c) = some (ready c)
checked false (started c) = some (started c)
checked ok _ = none

module _ (equivalent : String → String → Bool) where
  -- The model runs and is healthy, with this command or an equivalent one.
  abbrev pub serves : String → Phase → Bool
  serves cmd (ready c) = str_eq cmd c || equivalent cmd c
  serves cmd _ = false

module _ {R : Type 0} (equivalent : String → String → Bool) where
  -- What an event makes of the model; none where it may not happen. A benchmark needs a model that
  -- serves its command, where the program manages the model, a warm-up one that is ready, a health check one that has just started.
  abbrev pub advance : Event R → Phase → Option Phase
  advance (start cmd true) p = some (started cmd)
  advance (start cmd false) p = some off
  advance (health ok) p = checked ok p
  advance stop p = some off
  advance warmup p = if is_ready p then some p else none
  advance (bench (some cmd) context req result) p = if serves equivalent cmd p then some p else none
  advance (bench none context req result) p = some p
  advance _ p = some p

  abbrev pub replay : History R → Option Phase
  replay [] = some off
  replay (e ∷ h) = elim (replay h) [ none ↦ none | some p ↦ advance e p ]
