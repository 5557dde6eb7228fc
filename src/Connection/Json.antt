-- ===== src/Connection/Json.antt =====
-- core/transport/connection.py, `_encode_frame`, `_iter_json` and `_iter_json_string`: a frame as bounded JSON
-- in UTF-8, made of small chunks. A text is the list of its code points. `str` of an integer and `repr` of
-- a finite float are parameters.
use claudecode_lite_main.Prelude.{
  ℕ, ◌+◌, ◌/◌, ◌%◌, List, [], ◌∷◌, ◌++◌, Option, none, some, Bool, true, false, ltb, leb, length,
  ◌==◌, if◌then◌else◌, ◌&&◌, ◌*◌, ◌-◌,
}
use claudecode_lite_main.Prelude.Int.{ℤ}

abbrev pub Text : Type 0
Text = List ℕ

abbrev pub max_outbound_frame_bytes : ℕ
max_outbound_frame_bytes = 1024 * 1024

-- What `model_dump(mode="json")` gives. A dict is the list of its items; `float` holds what tells the number.
mutual
  pub data Json : Type 0 where
    null : Json
    boolean : Bool → Json
    text : Text → Json
    integer : ℤ → Json
    infinite : Json
    float : ℕ → Json
    list : Items → Json
    dict : Entries → Json

  pub data Items : Type 0 where
    end : Items
    item : Json → Items → Items

  pub data Entries : Type 0 where
    stop : Entries
    entry : Text → Json → Entries → Entries

abbrev pub hex_digit : ℕ → ℕ
hex_digit n = if ltb n 10 then b'0' + n else b'a' + (n - 10)

-- The table `escapes`, and the rule for the other control characters.
unfoldable pub escaped : ℕ → Option Text
escaped c =
    if c == 34
    then some (92 ∷ 34 ∷ [])
    else if c == 92
    then some (92 ∷ 92 ∷ [])
    else if c == 8
    then some (92 ∷ b'b' ∷ [])
    else if c == 12
    then some (92 ∷ b'f' ∷ [])
    else if c == 10
    then some (92 ∷ b'n' ∷ [])
    else if c == 13
    then some (92 ∷ b'r' ∷ [])
    else if c == 9
    then some (92 ∷ b't' ∷ [])
    else if ltb c 32
    then some (92 ∷ b'u' ∷ b'0' ∷ b'0' ∷ hex_digit (c / 16) ∷ hex_digit (c % 16) ∷ [])
    else none

-- What is left in `plain`, as a chunk of its own, before the chunks that follow.
abbrev pub flushed : Text → List Text → List Text
flushed [] rest = rest
flushed (c ∷ cs) rest = (c ∷ cs) ∷ rest

unfoldable pub string_loop : Text → Text → List Text
string_loop plain [] = flushed plain []
string_loop plain (c ∷ cs) = elim (escaped c) [
  | some e ↦ flushed plain (e ∷ string_loop [] cs)
  | none ↦
      let more = plain ++ c ∷ [] in
      let cut = more ∷ string_loop [] cs in
      let on = string_loop more cs in if length more == 4096 then cut else on
]

-- `_iter_json_string`.
unfoldable pub string_chunks : Text → List Text
unfolding string_loop
string_chunks s = (34 ∷ []) ∷ (string_loop [] s ++ (34 ∷ []) ∷ [])

module _ (int_text : ℤ → Text) (float_text : ℕ → Text) where
  -- `_iter_json`. The flag says that an item came before, and wants a comma.
  unfoldable mutual
    pub json_chunks : Json → List Text
    json_chunks null = (b'n' ∷ b'u' ∷ b'l' ∷ b'l' ∷ []) ∷ []
    json_chunks (boolean true) = (b't' ∷ b'r' ∷ b'u' ∷ b'e' ∷ []) ∷ []
    json_chunks (boolean false) = (b'f' ∷ b'a' ∷ b'l' ∷ b's' ∷ b'e' ∷ []) ∷ []
    json_chunks (text s) = string_chunks s
    json_chunks (integer n) = int_text n ∷ []
    json_chunks infinite = (b'n' ∷ b'u' ∷ b'l' ∷ b'l' ∷ []) ∷ []
    json_chunks (float x) = float_text x ∷ []
    json_chunks (list xs) = (b'[' ∷ []) ∷ (item_chunks false xs ++ (b']' ∷ []) ∷ [])
    json_chunks (dict es) = (b'{' ∷ []) ∷ (entry_chunks false es ++ (b'}' ∷ []) ∷ [])

    pub item_chunks : Bool → Items → List Text
    item_chunks later end = []
    item_chunks later (item x xs) =
        (if later then (b',' ∷ []) ∷ [] else []) ++ (json_chunks x ++ item_chunks true xs)

    pub entry_chunks : Bool → Entries → List Text
    entry_chunks later stop = []
    entry_chunks later (entry k x es) =
        (if later then (b',' ∷ []) ∷ [] else [])
        ++ (string_chunks k ++ ((b':' ∷ []) ∷ (json_chunks x ++ entry_chunks true es)))

-- UTF-8 of one code point; a surrogate has none, and no `str` holds a larger number.
unfoldable pub utf8_char : ℕ → Option (List ℕ)
utf8_char c =
    if ltb c 0x80
    then some (c ∷ [])
    else if ltb c 0x800
    then some ((0xc0 + c / 64) ∷ (0x80 + c % 64) ∷ [])
    else if leb 0xd800 c && ltb c 0xe000
    then none
    else if ltb c 0x10000
    then some ((0xe0 + c / 4096) ∷ (0x80 + c / 64 % 64) ∷ (0x80 + c % 64) ∷ [])
    else some
        ((0xf0 + c / 262144) ∷ (0x80 + c / 4096 % 64) ∷ (0x80 + c / 64 % 64) ∷ (0x80 + c % 64) ∷ [])

unfoldable pub utf8 : Text → Option (List ℕ)
utf8 [] = some []
utf8 (c ∷ cs) = elim (utf8_char c) [
  | none ↦ none
  | some bs ↦ elim (utf8 cs) [ none ↦ none | some more ↦ some (bs ++ more) ]
]

-- The loop of `_encode_frame`; `none` is a `ValueError`, of the bound or of the encoding.
unfoldable pub encode_loop : List ℕ → List Text → Option (List ℕ)
encode_loop encoded [] = some (encoded ++ 10 ∷ [])
encode_loop encoded (chunk ∷ chunks) = elim (utf8 chunk) [
  | none ↦ none
  | some bs ↦
      let rest = encode_loop (encoded ++ bs) chunks in
      if ltb max_outbound_frame_bytes (length encoded + length bs + 1) then none else rest
]

unfoldable pub encode_frame : (ℤ → Text) → (ℕ → Text) → Json → Option (List ℕ)
unfolding encode_loop json_chunks
encode_frame int_text float_text frame = encode_loop [] (json_chunks int_text float_text frame)
