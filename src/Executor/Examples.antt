-- ===== src/Executor/Examples.antt =====
-- Runs of src/specflow/executor/engine.py.
use specflow_agent.Prelude.{◌≡◌, refl, String, List, [], ◌∷◌, some, ok}
use specflow_agent.Prelude.Dict.{get}
use specflow_agent.Workflow.{new_engine}
use specflow_agent.Executor.{
  Handlers, ExecutionContext, Outcome, returned, raised, ExecutionResult, Executor, make_executor,
  execute_until, strip_control,
}
use specflow_agent.Executor.Steps.{HasHandlers}
use specflow_agent.Executor.Loop.{Ends, execute_until_complete-Ends}

abbrev good_handler : ExecutionContext → Outcome
good_handler _ = returned (record { metadata = ("b", "2") ∷ ("a", "1") ∷ [] })

abbrev bad_handler : ExecutionContext → Outcome
bad_handler _ = raised (record { type_name = "ValueError"; message = "no\r\nluck" })

abbrev handlers : Handlers
handlers = ("analyze", good_handler) ∷ ("generate", bad_handler) ∷ ("review", good_handler) ∷ []

abbrev plain : String → String
plain s = s

handlers_are_there : HasHandlers handlers
unfolding get
handlers_are_there = (refl, refl, refl)

execute_until_complete-Ends_example :
    (x' : Executor) × (rs : List ExecutionResult) × (execute_until plain handlers 5
        (make_executor new_engine)
        []
      ≡ some (x', ok rs))
    × Ends 4 x' rs
execute_until_complete-Ends_example =
    execute_until_complete-Ends plain handlers new_engine handlers_are_there refl (λ e. cc)

strip_control_line : strip_control "no\r\nluck" ≡ "no luck"
unfolding strip_control
strip_control_line = refl
