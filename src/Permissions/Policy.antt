-- ===== src/Permissions/Policy.antt =====
-- core/permissions/policy.py. `re.search` and `str` of the standard library are parameters, and
-- `V` is the type of the values that a tool call carries.
use claudecode_lite_main.Prelude.{
  String, List, [], ◌∷◌, Option, none, some, Bool, not, ◌&&◌, any, lookup, str_eq, if◌then◌else◌,
}

pub data Decision : Type 0 where
  allow deny ask : Decision

pub record ToolPolicy : Type 0 where
  pub default : Decision
  pub allow_patterns : List String
  pub deny_patterns : List String

abbrev pub outside_cwd_heuristics : List String
outside_cwd_heuristics =
    "(^|\\s)/[^\\s]" ∷ "(^|\\s)~" ∷ "(^|\\s)\\.\\.(/|$|\\s)" ∷ "\\$\\{?HOME\\b" ∷ "\\$\\{?PWD\\b"
    ∷ "(^|\\s|;|&&|\\|\\|)cd(\\s|$)" ∷ []

abbrev pub plain : Decision → ToolPolicy
plain d = record { default = d; allow_patterns = []; deny_patterns = [] }

abbrev pub default_policies : List (String × ToolPolicy)
default_policies =
    ("bash", record { default = ask; allow_patterns = []; deny_patterns = "\\bgit\\b" ∷ [] })
    ∷ ("write_file", plain ask)
    ∷ ("read_file", plain allow)
    ∷ ("list_dir", plain allow)
    ∷ ("search_code", plain allow)
    ∷ ("search_semantic", plain allow)
    ∷ ("note_save", plain allow)
    ∷ ("architecture_slice_submit", plain allow)
    ∷ ("planner_decision_submit", plain allow)
    ∷ ("git_status", plain allow)
    ∷ ("git_diff", plain allow)
    ∷ ("git_checkpoint", plain ask)
    ∷ ("git_commit", plain ask)
    ∷ ("git_rollback", plain ask)
    ∷ []

abbrev pub unknown_tool_default : Decision
unknown_tool_default = ask

-- `if command:` of a text.
abbrev pub truthy : String → Bool
truthy s = not (str_eq s "")

module _ {V : Type 0} (str : V → String) (re_search : String → String → Bool) where
  -- `str(params.get("command", "")) if tool_name == "bash" else ""`.
  unfoldable pub command_of : String → List (String × V) → String
  command_of tool_name params =
      if str_eq tool_name "bash"
      then elim (lookup "command" params) [ none ↦ "" | some v ↦ str v ]
      else ""

  -- One of the patterns is found in a command that is not empty.
  unfoldable pub hits : List String → String → Bool
  hits patterns command = truthy command && any (λ pat. re_search pat command) patterns

  unfoldable pub matches_outside_cwd : String → Bool
  matches_outside_cwd command = any (λ pat. re_search pat command) outside_cwd_heuristics

  -- The tiers of `evaluate`, for a policy that was found.
  unfoldable pub judge : ToolPolicy → String → Decision
  judge policy command =
      if hits policy.deny_patterns command
      then deny
      else if truthy command && matches_outside_cwd command
      then ask
      else if hits policy.allow_patterns command
      then allow
      else policy.default

  unfoldable pub judge_or_ask : Option ToolPolicy → String → Decision
  judge_or_ask none command = unknown_tool_default
  judge_or_ask (some policy) command = judge policy command

  unfoldable pub evaluate : String → List (String × V) → Option ToolPolicy → Decision
  evaluate tool_name params none =
      judge_or_ask (lookup tool_name default_policies) (command_of tool_name params)
  evaluate tool_name params (some policy) = judge_or_ask (some policy) (command_of tool_name params)
