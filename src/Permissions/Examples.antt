-- ===== src/Permissions/Examples.antt =====
-- The permission theorems at concrete calls. The stand-in for `re.search` knows two patterns.
use claudecode_lite_main.Prelude.{
  String, List, [], ◌∷◌, none, some, Bool, true, false, ◌&&◌, ◌||◌, ◌≡◌, refl, inr, str_eq,
  starts_with, lookup, insert, remove,
}
use claudecode_lite_main.Permissions.Policy.{
  ask, command_of, hits, matches_outside_cwd, judge_or_ask,
}
use claudecode_lite_main.Permissions.Manager.{
  allowed, resolved, PendingRequest, Manager, auto, raw, Ticket, decided, check, ask_user,
  evaluate_for, resume, respond, cancel_session, new_manager,
}
use claudecode_lite_main.Permissions.Checks.{
  is_denied, is_outside, MayPass, Agrees, Asked, check_auto_allow, check_outside_asks,
  check-evaluate,
}
use claudecode_lite_main.Permissions.Pending.{
  IsValid, check-IsValid, new_manager-IsValid, cancel_session_entry, always_allow_remembered,
}

search_sample : String → String → Bool
search_sample pat cmd =
    (str_eq pat "\\bgit\\b" && starts_with cmd "git")
    || (str_eq pat "(^|\\s)/[^\\s]" && starts_with cmd "/")

abbrev same : String → String
same s = s

abbrev start : Manager
start = new_manager [] none true

abbrev ls : List (String × String)
ls = ("command", "/bin/ls") ∷ []

abbrev pwd : List (String × String)
pwd = ("command", "pwd") ∷ []

program : Unit {0}
unfolding check evaluate_for hits command_of matches_outside_cwd search_sample lookup new_manager
    insert remove judge_or_ask respond resume cancel_session ask_user
program = tt

check_auto_allow_example :
    ((check same search_sample "u1" "read_file" [] "s1" start).0 ≡ start)
    × (auto allowed ≡ auto allowed)
    × (is_denied same search_sample start "read_file" [] ≡ false)
    × (is_outside same search_sample "read_file" [] ≡ false)
    × MayPass
        (start.session_always "s1" "read_file")
        (lookup "read_file" start.persistent_always)
        (hits same search_sample [] (command_of same search_sample "read_file" []))
        (lookup "read_file" start.policies)
unfolding program
check_auto_allow_example =
    check_auto_allow same search_sample "u1" "read_file" [] "s1" start {l = auto allowed} refl

check_outside_asks_example :
    Asked "u1" "bash" "s1" start (check same search_sample "u1" "bash" ls "s1" start)
unfolding program
check_outside_asks_example =
    check_outside_asks same search_sample "u1" "bash" ls "s1" start refl refl

check-evaluate_example :
    Agrees
      (evaluate_for same search_sample start "bash" pwd)
      start
      (ask_user "u1" "bash" "s1" start)
      (check same search_sample "u1" "bash" pwd "s1" start)
unfolding program
check-evaluate_example =
    check-evaluate same search_sample "u1" "bash" pwd "s1" start refl refl
      {p = record { default = ask; allow_patterns = []; deny_patterns = "\\bgit\\b" ∷ [] }} refl

-- A question of session "s1" that waits.
abbrev asked : Manager
asked = (check same search_sample "u1" "bash" pwd "s1" start).0

asked-IsValid : IsValid asked
asked-IsValid =
    check-IsValid same search_sample "u1" "bash" pwd "s1" start (new_manager-IsValid [] none true)

abbrev request : PendingRequest
request = record { future = 0; session_id = "s1"; tool_name = "bash" }

cancel_session_entry_example :
    (lookup "u1" (cancel_session "s1" asked).pending ≡ none)
    × ((cancel_session "s1" asked).futures 0 ≡ resolved "deny_once")
unfolding program
cancel_session_entry_example = cancel_session_entry "s1" "u1" request asked asked-IsValid refl

abbrev ticket : Ticket
ticket = record { future = 0; tool_use_id = "u1"; tool_name = "bash"; session_id = "s1" }

abbrev answered : String → Manager
answered answer = respond "u1" answer asked

always_allow_remembered_example :
    ((resume true ticket (answered "always_allow")).1 ≡ some (true, raw "always_allow"))
    × (check same search_sample "u2" "bash" pwd "s2"
          (resume true ticket (answered "always_allow")).0
        ≡ ((resume true ticket (answered "always_allow")).0, decided true (auto allowed)))
unfolding program
always_allow_remembered_example =
    always_allow_remembered same search_sample true ticket (answered "always_allow") "u2" "s2" pwd
      refl (inr refl) refl refl
