-- ===== src/Permissions/Storage.antt =====
-- core/permissions/storage.py: the policy file. A text is the list of its code points, and what `str` does with
-- white space and line breaks is written out. The file is its text; the paths and the encoding are left out.
use claudecode_lite_main.Prelude.{
  ℕ, List, [], ◌∷◌, ◌++◌, Option, none, some, Bool, true, false, ◌&&◌, ◌||◌, ltb, leb, ◌==◌, not,
  any, if◌then◌else◌,
}

abbrev pub Text : Type 0
Text = List ℕ

abbrev pub text_eq : Text → Text → Bool
text_eq [] [] = true
text_eq [] (d ∷ ds) = false
text_eq (c ∷ cs) [] = false
text_eq (c ∷ cs) (d ∷ ds) = let rest = text_eq cs ds in c == d && rest

-- `str.isspace` on one character.
unfoldable pub is_space : ℕ → Bool
is_space c =
    (leb 9 c && leb c 13)
    || (leb 28 c && leb c 32)
    || c == 133
    || c == 160
    || c == 5760
    || (leb 8192 c && leb c 8202)
    || c == 8232
    || c == 8233
    || c == 8239
    || c == 8287
    || c == 12288

-- Where `str.splitlines` breaks.
unfoldable pub is_break : ℕ → Bool
is_break c = (leb 10 c && leb c 13) || (leb 28 c && leb c 30) || c == 133 || c == 8232 || c == 8233

abbrev pub lstrip : (ℕ → Bool) → Text → Text
lstrip test [] = []
lstrip test (c ∷ cs) = let rest = lstrip test cs in if test c then rest else c ∷ cs

abbrev pub kept_before : Bool → ℕ → Text → Text
kept_before drop c [] = if drop then [] else c ∷ []
kept_before drop c (d ∷ ds) = c ∷ d ∷ ds

abbrev pub rstrip : (ℕ → Bool) → Text → Text
rstrip test [] = []
rstrip test (c ∷ cs) = kept_before (test c) c (rstrip test cs)

-- `text.strip()`, and `text.strip(chars)` for another test.
abbrev pub strip : (ℕ → Bool) → Text → Text
strip test cs = rstrip test (lstrip test cs)

abbrev pub last_line : Text → List Text
last_line [] = []
last_line (c ∷ cs) = (c ∷ cs) ∷ []

-- The lines, of which the first is given in part; the flag says that a carriage return came just before, whose
-- line feed belongs to the same break.
unfoldable pub lines_from : Bool → Text → Text → List Text
lines_from after_cr line [] = last_line line
lines_from after_cr line (c ∷ cs) =
    let same_break = lines_from false line cs in
    let broken = line ∷ lines_from (c == 13) [] cs in
    let longer = lines_from false (line ++ c ∷ []) cs in
    if after_cr && c == 10 then same_break else if is_break c then broken else longer

unfoldable pub splitlines : Text → List Text
unfolding lines_from
splitlines cs = lines_from false [] cs

-- `text.partition("=")`, less the separator.
abbrev pub partition : Text → Text × Text
partition [] = ([], [])
partition (c ∷ cs) = let rest = partition cs in if c == 61 then ([], cs) else (c ∷ rest.0, rest.1)

abbrev pub begins : ℕ → Text → Bool
begins d [] = false
begins d (c ∷ cs) = c == d

-- `[always]`.
abbrev pub always_section : Text
always_section = b'[' ∷ b'a' ∷ b'l' ∷ b'w' ∷ b'a' ∷ b'y' ∷ b's' ∷ b']' ∷ []

abbrev pub allow_text : Text
allow_text = b'a' ∷ b'l' ∷ b'l' ∷ b'o' ∷ b'w' ∷ []

abbrev pub deny_text : Text
deny_text = b'd' ∷ b'e' ∷ b'n' ∷ b'y' ∷ []

-- `result[k] = v` and `result.get(k)`.
unfoldable pub with_entry : Text → Text → List (Text × Text) → List (Text × Text)
with_entry k v [] = (k, v) ∷ []
with_entry k v ((j, w) ∷ m) =
    let rest = (j, w) ∷ with_entry k v m in if text_eq j k then (j, v) ∷ m else rest

unfoldable pub entry_of : Text → List (Text × Text) → Option Text
entry_of k [] = none
entry_of k ((j, w) ∷ m) = let rest = entry_of k m in if text_eq j k then some w else rest

abbrev pub is_quote : ℕ → Bool
is_quote c = c == 34

-- The last branch of the loop of `load_policy_file`.
unfoldable pub load_entry : Text → List (Text × Text) → List (Text × Text)
unfolding with_entry is_space
load_entry stripped result =
    let parts = partition stripped in
    let v = strip is_quote (strip is_space parts.1) in
    if text_eq v allow_text || text_eq v deny_text
    then with_entry (strip is_space parts.0) v result
    else result

-- One turn of that loop: the flag `in_always` and the result.
unfoldable pub load_line : Text → Bool × List (Text × Text) → Bool × List (Text × Text)
unfolding load_entry is_space
load_line line (in_always, result) =
    let stripped = strip is_space line in
    if text_eq stripped always_section
    then (true, result)
    else if begins (b'[') stripped
    then (false, result)
    else if in_always && any (λ c. c == 61) stripped && not (begins (b'#') stripped)
    then (in_always, load_entry stripped result)
    else (in_always, result)

unfoldable pub load_lines : List Text → Bool × List (Text × Text) → Bool × List (Text × Text)
unfolding load_line
load_lines [] state = state
load_lines (line ∷ lines) state = load_lines lines (load_line line state)

-- `load_policy_file`; without a file the text is `none`.
unfoldable pub load_policy_file : Option Text → List (Text × Text)
unfolding load_lines splitlines
load_policy_file none = []
load_policy_file (some content) = (load_lines (splitlines content) (false, [])).1

-- Python's order of texts.
abbrev pub text_leb : Text → Text → Bool
text_leb [] ds = true
text_leb (c ∷ cs) [] = false
text_leb (c ∷ cs) (d ∷ ds) = let rest = text_leb cs ds in if c == d then rest else ltb c d

-- `sorted(always.items())`; the keys of a dict are distinct.
unfoldable pub insert_item : Text × Text → List (Text × Text) → List (Text × Text)
insert_item (k, v) [] = (k, v) ∷ []
insert_item (k, v) ((j, w) ∷ m) =
    let rest = (j, w) ∷ insert_item (k, v) m in if text_leb k j then (k, v) ∷ (j, w) ∷ m else rest

unfoldable pub sorted_items : List (Text × Text) → List (Text × Text)
unfolding insert_item
sorted_items [] = []
sorted_items (item ∷ items) = insert_item item (sorted_items items)

-- `{tool} = "{decision}"`.
abbrev pub item_line : Text × Text → Text
item_line (tool, decision) = tool ++ (b' ' ∷ b'=' ∷ b' ' ∷ b'"' ∷ (decision ++ b'"' ∷ []))

abbrev pub item_lines : List (Text × Text) → List Text
item_lines [] = []
item_lines (item ∷ items) = item_line item ∷ item_lines items

-- Every line with its line feed: `"\n".join(lines) + "\n"`, as there is a first line.
abbrev pub joined : List Text → Text
joined [] = []
joined (line ∷ lines) = line ++ 10 ∷ joined lines

-- The two comment lines, as the source has them, the empty line and the name of the section.
abbrev pub header_lines : List Text
header_lines =
    (35 ∷ 32 ∷ 126 ∷ 47 ∷ 46 ∷ 107 ∷ 97 ∷ 109 ∷ 97 ∷ 47 ∷ 112 ∷ 111 ∷ 108 ∷ 105 ∷ 99 ∷ 121 ∷ 46
      ∷ 116 ∷ 111 ∷ 109 ∷ 108 ∷ [])
    ∷ (35 ∷ 32 ∷ 30001 ∷ 32 ∷ 107 ∷ 97 ∷ 109 ∷ 97 ∷ 45 ∷ 99 ∷ 111 ∷ 114 ∷ 101 ∷ 32 ∷ 33258 ∷ 21160
        ∷ 31649 ∷ 29702 ∷ 65292 ∷ 25163 ∷ 21160 ∷ 32534 ∷ 36753 ∷ 29983 ∷ 25928 ∷ 20294 ∷ 26684
        ∷ 24335 ∷ 39035 ∷ 27491 ∷ 30830 ∷ [])
    ∷ []
    ∷ always_section
    ∷ []

unfoldable pub save_policy_file : List (Text × Text) → Text
unfolding sorted_items
save_policy_file always = joined (header_lines ++ item_lines (sorted_items always))
