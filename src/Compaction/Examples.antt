-- ===== src/Compaction/Examples.antt =====
-- The compaction theorems on a short conversation.
use claudecode_lite_main.Prelude.{
  ◌↔◌, String, ℕ, zero, suc, ◌≤◌, ◌<◌, mem, List, [], ◌∷◌, ◌++◌, Option, none, some, true, false,
  leb, length, if◌then◌else◌, ◌≡◌, refl, arith,
}
use claudecode_lite_main.Prelude.Int.{pos}
use claudecode_lite_main.Compaction.Prefix.{
  tool_use, tool_result, Message, after_message, pending_after, is_balanced_prefix, take, drop,
  TailPolicy, tail_floor, bits, probe, search, scan, searched, best_prefix, try_end,
  select_admissible_prefix,
}
use claudecode_lite_main.Compaction.Balance.{open_after, is_balanced_prefix-exact}
use claudecode_lite_main.Compaction.Search.{searched_ends}
use claudecode_lite_main.Compaction.Selection.{IsAdmissible, select_sound, select_none}

program : Unit {0}
unfolding mem after_message pending_after is_balanced_prefix tail_floor bits probe search scan
    searched best_prefix try_end select_admissible_prefix
program = tt

abbrev question : Message
question = record { role = "user"; content = none; message_id = "m1"; text = "list the files" }

abbrev call : Message
call = record {
  role = "assistant";
  content = some (tool_use "t1" ∷ []);
  message_id = "m2";
  text = "";
}

abbrev result : Message
result = record {
  role = "user";
  content = some (tool_result "t1" ∷ []);
  message_id = "m3";
  text = "";
}

abbrev conversation : List Message
conversation = question ∷ call ∷ result ∷ question ∷ []

-- Every message counts for one token, and the gateway admits three of them.
abbrev admit_three : List Message → Option ℕ
admit_three ms = if leb (length ms) 3 then some (length ms) else none

abbrev policy : TailPolicy
policy = record { recent_tail_max_tokens = pos 1; tail_share = pos 2; target = 2 }

selected :
    select_admissible_prefix length admit_three [] policy 4 conversation
    ≡ some (question ∷ call ∷ result ∷ [], question ∷ [], 3)
unfolding program
selected = refl

select_sound_example :
    ((question ∷ call ∷ result ∷ []) ++ question ∷ [] ≡ conversation)
    × IsAdmissible length admit_three []
        (tail_floor policy 4)
        (question ∷ call ∷ result ∷ [])
        (question ∷ [])
        3
    × (length conversation ≤ 64
        → (end : ℕ) (b : ℕ) → length (question ∷ call ∷ result ∷ []) < end
        → end ≤ length conversation
        → ¬ IsAdmissible length admit_three []
            (tail_floor policy 4)
            (take end conversation)
            (drop end conversation)
            b)
select_sound_example =
    select_sound length admit_three [] policy 4 conversation (question ∷ call ∷ result ∷ [])
      (question ∷ []) 3 selected

-- A call with no result yet cannot be taken.
none_selected :
    select_admissible_prefix length admit_three [] policy 2 (call ∷ question ∷ []) ≡ none
unfolding program
none_selected = refl

select_none_example :
    ¬ IsAdmissible length admit_three []
      (tail_floor policy 2)
      (take 2 (call ∷ question ∷ []))
      (drop 2 (call ∷ question ∷ []))
      2
select_none_example =
    select_none length admit_three [] policy 2 (call ∷ question ∷ []) (omega arith) none_selected 2
      2 (omega arith) (omega arith)

searched_ends_example :
    (searched (try_end length admit_three [] 1 conversation) 4).high
    < (searched (try_end length admit_three [] 1 conversation) 4).low
searched_ends_example = searched_ends (try_end length admit_three [] 1 conversation) 4

-- Of a hundred messages whose first call is answered in the last one, only the whole is balanced, and the scan
-- does not get there.
abbrev filler : ℕ → List Message
filler zero = []
filler (suc n) = question ∷ filler n

abbrev admit_all : List Message → Option ℕ
admit_all ms = some 1

abbrev long_call : List Message
long_call = call ∷ (filler 98 ++ result ∷ [])

long_call_balanced : is_balanced_prefix (take 100 long_call) ≡ true
unfolding program
long_call_balanced = refl

long_call_missed :
    select_admissible_prefix length admit_all [] (record policy { target = 1000 }) 100 long_call
    ≡ none
unfolding program
long_call_missed = refl

is_balanced_prefix-exact_example :
    (is_balanced_prefix (question ∷ call ∷ result ∷ []) ≡ true)
    ↔ ((i : String) → open_after i (question ∷ call ∷ result ∷ []) false ≡ false)
is_balanced_prefix-exact_example = is_balanced_prefix-exact (question ∷ call ∷ result ∷ [])
