-- ===== src/Tools/Names.antt =====
-- src/specflow/tools/models.py: the two patterns for names and versions, written out on code points.
use specflow_agent.Prelude.{
  ℕ, zero, suc, String, Bool, true, false, List, [], ◌∷◌, ◌==◌, nat_eq, leb, all, ◌&&◌, ◌||◌,
  if◌then◌else◌,
}
use specflow_agent.Prelude.Text.{codes}

abbrev pub is_lower : ℕ → Bool
is_lower c = leb b'a' c && leb c b'z'

abbrev pub is_digit : ℕ → Bool
is_digit c = leb b'0' c && leb c b'9'

abbrev pub is_word : ℕ → Bool
is_word c = is_lower c || is_digit c || c == b'_'

abbrev pub is_name : List ℕ → Bool
is_name [] = false
is_name (c ∷ cs) = is_lower c && all is_word cs

-- _TOOL_NAME_RE.fullmatch: ^[a-z][a-z0-9_]*$
unfoldable pub is_tool_name : String → Bool
is_tool_name name = is_name (codes name)

-- Whether the rest of a version is right, with the number of dots to come and whether a digit stands
-- before it.
unfoldable pub version_from : ℕ → Bool → List ℕ → Bool
version_from zero after_digit [] = after_digit
version_from (suc dots) after_digit [] = false
version_from zero after_digit (c ∷ cs) = is_digit c && version_from zero true cs
version_from (suc dots) after_digit (c ∷ cs) =
    let next = version_from dots false cs in
    let more = version_from (suc dots) true cs in
    if is_digit c then more else after_digit && c == b'.' && next

-- _VERSION_RE.fullmatch: ^[0-9]+(?:\.[0-9]+){2}$
unfoldable pub is_version : String → Bool
unfolding version_from
is_version version = version_from 2 false (codes version)
