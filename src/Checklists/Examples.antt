-- ===== src/Checklists/Examples.antt =====
-- A checklist of two stages, one after the other.
use dcs_copilot.Prelude.{◌↔◌, String, ◌≡◌, refl, ◌≢◌, true, false, none, some, [], ◌∷◌, str_eq}
use dcs_copilot.Prelude.Result.{ok, err}
use dcs_copilot.Aircraft.State.{AircraftState, unknown}
use dcs_copilot.Aircraft.History.{new_history}
use dcs_copilot.Checklists.{
  ChecklistItem, by_manual, ChecklistStage, ChecklistDefinition, ChecklistResult, all_items,
}
use dcs_copilot.Checklists.Stages.{stage_chain, out_of_fuel, cyclic_dependency}
use dcs_copilot.Checklists.Stages.Chain.{IsChain, stage_chain-IsChain}
use dcs_copilot.Checklists.Stages.Chain.Fuel.{stage_chain-ends}
use dcs_copilot.Checklists.Engine.{
  ChecklistEngine, new_engine, start, evaluate, unresolved, sorted_result,
}
use dcs_copilot.Checklists.Engine.Valid.{NoneOpen, evaluate-returns}
use dcs_copilot.Checklists.Engine.Guided.Finish.{Finishes, guided-Finishes}

abbrev manual_item : String → ChecklistItem
manual_item id = record {
  id = id;
  label = id;
  verification = by_manual;
  expected = none;
  condition = none;
  action_field = none;
  applicable_if = none;
  source_reference = "";
  latch_completion = false;
}

abbrev engines : ChecklistStage
engines = record {
  id = "engines";
  label = "Engines";
  items = manual_item "apu" ∷ [];
  depends_on = [];
}

abbrev taxi : ChecklistStage
taxi = record {
  id = "taxi";
  label = "Taxi";
  items = manual_item "brakes" ∷ manual_item "lights" ∷ [];
  depends_on = "engines" ∷ [];
}

abbrev departure : ChecklistDefinition
departure = record {
  id = "departure";
  aircraft = "FA-18C_hornet";
  label = "Departure";
  stages = taxi ∷ engines ∷ [];
  default_stage = none;
}

abbrev looped : ChecklistDefinition
looped = record departure { stages = record taxi { depends_on = "taxi" ∷ [] } ∷ [] }

looped_chain :
    stage_chain looped (record taxi { depends_on = "taxi" ∷ [] }) ≡ err (cyclic_dependency "taxi")
unfolding stage_chain
looped_chain = refl

departure_chain : stage_chain departure taxi ≡ ok (engines ∷ taxi ∷ [])
unfolding stage_chain
departure_chain = refl

stage_chain-IsChain_example : IsChain departure taxi (engines ∷ taxi ∷ [])
stage_chain-IsChain_example =
    stage_chain-IsChain departure taxi (engines ∷ taxi ∷ []) departure_chain

stage_chain-ends_example : stage_chain looped taxi ≢ err out_of_fuel
stage_chain-ends_example = stage_chain-ends looped taxi

abbrev parked : AircraftState
parked = record {
  aircraft = some "FA-18C_hornet";
  connected = true;
  flight_phase = unknown;
  telemetry = [];
}

abbrev built : ChecklistEngine
built = record {
  definitions = ("departure", departure) ∷ [];
  session = record {
    checklist_id = none;
    stage_id = none;
    progress_checklist_id = none;
    pilot_confirmed_items = [];
  };
  latched = [];
}

built-new_engine : new_engine (departure ∷ []) ≡ ok built
unfolding new_engine
built-new_engine = refl

abbrev guided : ChecklistEngine
guided = record built {
  session = record {
    checklist_id = some "departure";
    stage_id = some "taxi";
    progress_checklist_id = some "departure";
    pilot_confirmed_items = [];
  };
}

guided-start : start "departure" (some "taxi") built ≡ ok guided
unfolding start
guided-start = refl

evaluate-returns_example :
    (r : ChecklistResult) × (evaluate guided parked (new_history 300 []) 0 none none ≡ ok r)
    × ((r.complete ≡ true) ↔ NoneOpen (all_items r))
unfolding evaluate
evaluate-returns_example =
    evaluate-returns (departure ∷ []) built guided parked (new_history 300 []) 0 none none departure
      taxi built-new_engine refl refl refl

abbrev shown : ChecklistResult
unfolding evaluate sorted_result
shown = elim (evaluate guided parked (new_history 300 []) 0 (some "departure") (some "taxi")) [
  | ok r ↦ r
  | err e ↦ sorted_result departure taxi []
]

guided-Finishes_example : Finishes (λ id. str_eq id "") parked (new_history 300 []) 0 3 guided
unfolding evaluate unresolved
guided-Finishes_example =
    guided-Finishes (λ id. str_eq id "") "departure" "taxi" parked (new_history 300 []) 0 guided
      shown refl refl tt refl (refl, (refl, (refl, tt)))
