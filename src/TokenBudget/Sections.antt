-- ===== src/TokenBudget/Sections.antt =====
-- src/specflow/token_budget/manager.py: the sections of a user message.
use Prim.Native.Char.{code}
use Prim.Native.String.{String}
use specflow_agent.Prelude.{
  ℕ, Bool, true, false, Option, none, some, List, [], ◌∷◌, map, keep, any, leb, not, ◌&&◌, ◌||◌,
  ◌==◌, nat_eq, string_eq, contains, if◌then◌else◌,
}
use specflow_agent.Prelude.Dict.{Dict}
use specflow_agent.Prelude.Text.{strip, codes, starts_with, ◌+++◌}

-- _SECTION_MARKERS
abbrev pub section_markers : Dict String (List String)
section_markers =
    ("requirement", "Requirement:" ∷ "User requirement:" ∷ "Requirement analysis:" ∷ [])
    ∷ (
      "project_overview",
      "Project:" ∷ "# Project Context" ∷ "project_name:" ∷ "total_files:" ∷ "ignored_directories:"
          ∷ "oversized_files:" ∷ [],
    )
    ∷ (
      "technology_stack",
      "language:" ∷ "frameworks:" ∷ "validation_library:" ∷ "orm:" ∷ "database:" ∷ "test_framework:"
          ∷ "lint_tools:" ∷ "dependency_files:" ∷ "entry_candidates:" ∷ "top_level_directories:"
          ∷ [],
    )
    ∷ ("evidence", "technology_evidence:" ∷ [])
    ∷ ("warnings", "parse_warnings:" ∷ [])
    ∷ ("unknowns", "unknowns:" ∷ "Unknowns:" ∷ [])
    ∷ []

-- The first section that has a marker of the line
unfoldable pub find_section : Dict String (List String) → String → Option String
find_section [] stripped = none
find_section ((name, markers) ∷ sections) stripped =
    if contains markers stripped || any (λ m. starts_with (codes m) (codes stripped)) markers
    then some name
    else find_section sections stripped

-- _detect_section
unfoldable pub detect_section : String → Option String
unfolding find_section
detect_section line = find_section section_markers (strip line)

abbrev pub is_line_break : ℕ → Bool
is_line_break c =
    (leb 10 c && leb c 13) || (leb 28 c && leb c 30) || c == 133 || c == 8232 || c == 8233

-- text.splitlines(), with the line so far and whether a carriage return stands before
unfoldable pub split_from : String → Bool → String → List String
split_from line after_cr String.[] = if line == "" then [] else line ∷ []
split_from line after_cr (String.◌∷◌ c s) =
    let skip = split_from line false s in
    let cut = split_from "" (code c == 13) s in
    let more = split_from (line +++ String.◌∷◌ c String.[]) false s in
    if after_cr && code c == 10 then skip else if is_line_break (code c) then line ∷ cut else more

unfoldable pub split_lines : String → List String
unfolding split_from
split_lines text = split_from "" false text

-- "\n".join(texts)
unfoldable pub join_lines : List String → String
join_lines [] = ""
join_lines (t ∷ []) = t
join_lines (t ∷ u ∷ ts) = t +++ "\n" +++ join_lines (u ∷ ts)

abbrev pub no_lines : List String → Bool
no_lines [] = true
no_lines (t ∷ ts) = false

-- The sections of the lines; `current` holds the lines of the last one in reverse.
unfoldable pub group_lines : String → List String → List String → List (String × List String)
group_lines name current [] = if no_lines current then [] else (name, current) ∷ []
group_lines name current (line ∷ lines) = elim (detect_section line) [
  | none ↦ group_lines name (line ∷ current) lines
  | some detected ↦
      let open_next = group_lines detected (line ∷ []) lines in
      let first = group_lines detected (line ∷ current) lines in
      if no_lines current then first else (name, current) ∷ open_next
]

unfoldable pub reverse_lines : List String → List String → List String
reverse_lines [] done = done
reverse_lines (t ∷ ts) done = reverse_lines ts (t ∷ done)

abbrev pub section_text : List String → String
section_text current = strip (join_lines (reverse_lines current []))

-- _split_user_message
unfoldable pub split_user_message : String → List (String × String)
split_user_message message =
    keep (λ p. not (p.1 == ""))
      (map (λ p. (p.0, section_text p.1)) (group_lines "project_overview" [] (split_lines message)))

-- _join_sections
unfoldable pub join_sections : List (String × String) → String
join_sections sections = strip (join_lines (map (λ p. p.1) (keep (λ p. not (p.1 == "")) sections)))
