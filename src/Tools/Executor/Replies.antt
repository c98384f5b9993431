-- ===== src/Tools/Executor/Replies.antt =====
-- src/specflow/tools/executor.py: what `ToolExecutor.execute` returns.
use specflow_agent.Prelude.{
  ◌≡◌, refl, subst, ap, String, true, false, [], ok, err, ◌>>◌, >>=-eq-ok, raise_if, raise_if-eq-ok,
  Result-cases, not, ◌==◌, string_eq, arith, inl, inr, ◌⊎◌, Bool-cases,
}
use specflow_agent.Prelude.Text.{is_blank, ◌+++◌, append-given}
use specflow_agent.Prelude.Sort.{sort_by}
use specflow_agent.Tools.Names.{is_tool_name}
use specflow_agent.Tools.Sanitization.{Patterns, sanitize_tool_text}
use specflow_agent.Tools.Models.{
  no_error_message, ToolCall, ToolResult, make_result, make_failure, failure_of, sanitized_result,
  validate_tool_name, normalize_json_mapping, normalize_entries, sanitized_result,
}
use specflow_agent.Tools.Registry.{
  Raised, ToolReply, returned, returned_other, raised, Tool, ToolRegistry, get_tool,
}
use specflow_agent.Tools.Executor.{mismatch, validate_result_matches_call, accept_reply, execute}

-- A call as its constructor leaves it.
abbrev pub IsCall : ToolCall → Type 0
IsCall call = (is_blank call.call_id ≡ false) × (is_tool_name call.tool_name ≡ true)

-- A result for the call.
abbrev pub Matches : ToolCall → ToolResult → Type 0
Matches call r = (r.call_id ≡ call.call_id) × (r.tool_name ≡ call.tool_name)

same_parts :
    (call : ToolCall) (result r : ToolResult)
    → result ≡ r
    → not (result.call_id == call.call_id) ≡ false
    → not (result.tool_name == call.tool_name) ≡ false
    → Matches call r
same_parts call result r same id name = subst (Matches call) same (
  (string_eq.beq_iff result.call_id call.call_id).0 (ground (arith, id)),
  (string_eq.beq_iff result.tool_name call.tool_name).0 (ground (arith, name)),
)

accept_reply-Matches :
    (call : ToolCall) (reply : ToolReply) (r : ToolResult)
    → accept_reply call reply ≡ ok r
    → (reply ≡ returned r) × Matches call r
unfolding accept_reply validate_result_matches_call
accept_reply-Matches call (returned result) r h =
    let wrong_id = not (result.call_id == call.call_id) in
    let wrong_name = not (result.tool_name == call.tool_name) in
    let id_error = mismatch "ToolResult.call_id must match ToolCall.call_id" in
    let name_error = mismatch "ToolResult.tool_name must match ToolCall.tool_name" in
    let (u, checked, h1) =
      >>=-eq-ok (raise_if wrong_id id_error >> raise_if wrong_name name_error) (λ _. ok result) h in
    let (v, id_right, name_right) =
      >>=-eq-ok (raise_if wrong_id id_error) (λ _. raise_if wrong_name name_error) checked in
    let same : result ≡ r = cc in
    (
      ap returned same,
      same_parts call result r same (raise_if-eq-ok wrong_id id_error id_right)
          (raise_if-eq-ok wrong_name name_error name_right),
    )
accept_reply-Matches call returned_other r h = cc
accept_reply-Matches call (raised error) r h = cc

module _ (patterns : Patterns) where
  make_failure-Matches :
      (call : ToolCall) (error_type message : String)
      → IsCall call
      → (message == "") ≡ false
      → (r : ToolResult) × (make_failure patterns call.call_id call.tool_name error_type message
          ≡ ok r)
        × Matches call r
  unfolding make_failure make_result validate_tool_name normalize_json_mapping normalize_entries
      sort_by
  make_failure-Matches call error_type message valid given = (
    sanitized_result patterns (failure_of patterns call.call_id call.tool_name error_type message)
        [],
    rw valid.0 (rw valid.1 (rw given refl)),
    (refl, refl),
  )

  make_failure-silent :
      (call : ToolCall) (error_type : String)
      → IsCall call
      → make_failure patterns call.call_id call.tool_name error_type "" ≡ err no_error_message
  unfolding make_failure make_result validate_tool_name normalize_json_mapping normalize_entries
      sort_by
  make_failure-silent call error_type valid = rw valid.0 (rw valid.1 refl)

  -- A tool's exception whose text is empty, or is so once it is sanitized, leaves `execute`: the failed
  -- result that should report it is refused for want of a message.
  execute-silent :
      (registry : ToolRegistry) (call : ToolCall) (tool : Tool) (e : Raised)
      → IsCall call
      → get_tool registry call.tool_name ≡ ok tool
      → accept_reply call (tool.execute call) ≡ err e
      → sanitize_tool_text patterns e.message ≡ ""
      → execute patterns registry call ≡ err no_error_message
  unfolding execute
  execute-silent registry call tool e valid found failed silent =
      rw found (rw failed (rw silent (make_failure-silent call e.type_name valid)))

  -- Executing a call gives a result with the call's id and tool, also when no tool is registered under
  -- the name, the tool raises, or its result is for another call; but when the text of such an error
  -- is empty once it is sanitized, `execute` itself raises.
  pub execute-Matches :
      (registry : ToolRegistry) (call : ToolCall)
      → IsCall call
      → ((r : ToolResult) × (execute patterns registry call ≡ ok r) × Matches call r)
        ⊎ ((tool : Tool) × (e : Raised) × (get_tool registry call.tool_name ≡ ok tool)
            × (accept_reply call (tool.execute call) ≡ err e)
            × (sanitize_tool_text patterns e.message ≡ "")
            × (execute patterns registry call ≡ err no_error_message))
  unfolding execute
  execute-Matches registry call valid = elim (Result-cases (get_tool registry call.tool_name)) [
    | inr (e, missing) ↦
        let (r, made, matches) =
          make_failure-Matches call "ToolNotFoundError" ("Tool not registered: " +++ call.tool_name)
            valid (append-given _ _ call.tool_name) in
        inl (r, rw missing made, matches)
    | inl (tool, found) ↦ elim (Result-cases (accept_reply call (tool.execute call))) [
      | inl (r, accepted) ↦ inl (
        r,
        rw found (rw accepted refl),
        (accept_reply-Matches call (tool.execute call) r accepted).1,
      )
      | inr (e, failed) ↦ elim (Bool-cases (sanitize_tool_text patterns e.message == "")) [
        | inl silent ↦
            let empty = (string_eq.beq_iff (sanitize_tool_text patterns e.message) "").0 silent in
            inr (
              tool,
              e,
              found,
              failed,
              empty,
              execute-silent registry call tool e valid found failed empty,
            )
        | inr given ↦
            let (r, made, matches) =
              make_failure-Matches call e.type_name (sanitize_tool_text patterns e.message) valid
                given in
            inl (r, rw found (rw failed made), matches)
      ]
    ]
  ]
