-- ===== src/Sandbox/TaskName.antt =====
-- packages/modules/sandbox/src/domain/services/task-name.policy.ts.
-- `toISOString` of the JavaScript library is the parameter `to_iso`.
use agent_platform_api.Common.{
  ℕ, Text, trim, Bool, not, ◌||◌, ltb, ◌==◌, length, any, if◌then◌else◌, Option, none, some, List,
  [], ◌∷◌, ◌++◌, take, drop, flatten, code_points, is_blank,
}

abbrev pub task_name_max_code_points : ℕ
task_name_max_code_points = 20

abbrev ellipsis : Text
ellipsis = 0x2026 ∷ []

-- `prompt.split('\n')`, the line being read in front.
split_lines_from : Text → Text → List Text
split_lines_from line [] = line ∷ []
split_lines_from line (c ∷ cs) =
    let rest = split_lines_from [] cs in
    let more = split_lines_from (line ++ c ∷ []) cs in if c == 10 then line ∷ rest else more

abbrev is_filled : Text → Bool
is_filled line = not (is_blank (trim line))

-- The first line that is not blank, and the lines after it.
first_filled : List Text → Option (Text × List Text)
first_filled [] = none
first_filled (line ∷ rest) =
    let later = first_filled rest in if is_filled line then some (line, rest) else later

shorten : Text × List Text → Text
shorten (raw, rest) =
    let points = code_points (trim raw) in
    let head = flatten (take task_name_max_code_points points) in
    if ltb task_name_max_code_points (length points) || any is_filled rest
    then head ++ ellipsis
    else head

name_from_prompt : Option Text → Option Text
unfolding split_lines_from first_filled shorten
name_from_prompt none = none
name_from_prompt (some prompt) = elim (first_filled (split_lines_from [] prompt)) [
  | none ↦ none
  | some found ↦ some (shorten found)
]

-- `YYYY-MM-DD HH:mm`
format_utc_minute : (ℕ → Text) → ℕ → Text
format_utc_minute to_iso at = let iso = to_iso at in take 10 iso ++ (32 ∷ take 5 (drop 11 iso))

unfoldable pub derive_default_task_name : (ℕ → Text) → Option Text → Text → ℕ → Text
unfolding name_from_prompt format_utc_minute
derive_default_task_name to_iso prompt runtime_label now = elim (name_from_prompt prompt) [
  | some name ↦ name
  | none ↦ runtime_label ++ (32 ∷ 0xb7 ∷ 32 ∷ format_utc_minute to_iso now)
]
