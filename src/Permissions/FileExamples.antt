-- ===== src/Permissions/FileExamples.antt =====
-- The policy file's theorem on two tools.
use claudecode_lite_main.Prelude.{List, [], ◌∷◌, some, ◌≡◌, refl, inl, inr}
use claudecode_lite_main.Permissions.Storage.{
  Text, is_space, is_break, allow_text, deny_text, load_policy_file, save_policy_file, sorted_items,
  entry_of,
}
use claudecode_lite_main.Permissions.Loading.{IsPlain}
use claudecode_lite_main.Permissions.RoundTrip.{load-save}

program : Unit {0}
unfolding is_space is_break load_policy_file save_policy_file sorted_items entry_of
program = tt

-- The tools `sh` and `ls`.
abbrev two_tools : List (Text × Text)
two_tools = (b's' ∷ b'h' ∷ [], deny_text) ∷ (b'l' ∷ b's' ∷ [], allow_text) ∷ []

sh-IsPlain : IsPlain (b's' ∷ b'h' ∷ [], deny_text)
unfolding program
sh-IsPlain = record {
  head = b's';
  tail = b'h' ∷ [];
  name = refl;
  no_space = refl;
  no_section = refl;
  no_comment = refl;
  no_space_behind = refl;
  no_equals = refl;
  one_line = refl;
  decided = inr refl;
}

ls-IsPlain : IsPlain (b'l' ∷ b's' ∷ [], allow_text)
unfolding program
ls-IsPlain = record {
  head = b'l';
  tail = b's' ∷ [];
  name = refl;
  no_space = refl;
  no_section = refl;
  no_comment = refl;
  no_space_behind = refl;
  no_equals = refl;
  one_line = refl;
  decided = inl refl;
}

load-save_example :
    (load_policy_file (some (save_policy_file two_tools)) ≡ sorted_items two_tools)
    × ((tool : Text)
        → entry_of tool (load_policy_file (some (save_policy_file two_tools)))
          ≡ entry_of tool two_tools)
load-save_example = load-save two_tools (sh-IsPlain, (ls-IsPlain, tt)) ((refl, tt), (tt, tt))

saved_and_loaded :
    load_policy_file (some (save_policy_file two_tools))
    ≡ (b'l' ∷ b's' ∷ [], allow_text) ∷ (b's' ∷ b'h' ∷ [], deny_text) ∷ []
unfolding program
saved_and_loaded = refl
