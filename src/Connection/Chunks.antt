-- ===== src/Connection/Chunks.antt =====
-- The chunks of a frame make up its compact JSON text (core/transport/connection.py).
use claudecode_lite_main.Prelude.{
  ℕ, List, [], ◌∷◌, ◌++◌, none, some, Bool, true, false, ◌≡◌, refl, sym, inl, inr, length, ◌==◌,
  if◌then◌else◌, Option-cases, Bool-cases,
}
use claudecode_lite_main.Prelude.Int.{ℤ}
use mathlib.Core.List.{append_assoc, append-nil}
use claudecode_lite_main.Connection.Json.{
  Text, Json, null, boolean, text, integer, infinite, float, list, dict, Items, end, item, Entries,
  stop, entry, escaped, flushed, string_loop, string_chunks, json_chunks, item_chunks, entry_chunks,
}

abbrev pub flat : List Text → Text
flat [] = []
flat (c ∷ cs) = c ++ flat cs

pub flat-append : (xs ys : List Text) → flat (xs ++ ys) ≡ flat xs ++ flat ys
flat-append [] ys = refl
flat-append (x ∷ xs) ys = rw (flat-append xs ys) (sym (append_assoc x (flat xs) (flat ys)))

-- JSON's text for a string, character by character.
abbrev pub char_text : ℕ → Text
char_text c = elim (escaped c) [ some e ↦ e | none ↦ c ∷ [] ]

unfoldable pub inner_text : Text → Text
inner_text [] = []
inner_text (c ∷ cs) = char_text c ++ inner_text cs

abbrev pub string_text : Text → Text
string_text s = 34 ∷ (inner_text s ++ 34 ∷ [])

flat-flushed : (plain : Text) (rest : List Text) → flat (flushed plain rest) ≡ plain ++ flat rest
flat-flushed [] rest = refl
flat-flushed (c ∷ cs) rest = refl

flat-string_loop : (plain s : Text) → flat (string_loop plain s) ≡ plain ++ inner_text s
unfolding string_loop inner_text
flat-string_loop plain [] = flat-flushed plain []
flat-string_loop plain (c ∷ cs) = elim (Option-cases (escaped c)) [
  | inr (e, is) ↦
      rw
        (
          is,
          string_loop,
          inner_text,
          char_text,
          flat-flushed plain (e ∷ string_loop [] cs),
          flat-string_loop [] cs,
        )
        refl
  | inl is ↦ elim (Bool-cases (length (plain ++ c ∷ []) == 4096)) [
    | inl full ↦
        rw (is, full, string_loop, inner_text, char_text, flat-string_loop [] cs)
          (append_assoc plain (c ∷ []) (inner_text cs))
    | inr room ↦
        rw (is, room, string_loop, inner_text, char_text, flat-string_loop (plain ++ c ∷ []) cs)
          (append_assoc plain (c ∷ []) (inner_text cs))
  ]
]

pub flat-string_chunks : (s : Text) → flat (string_chunks s) ≡ string_text s
unfolding string_chunks
flat-string_chunks s =
    rw (flat-append (string_loop [] s) ((34 ∷ []) ∷ []), flat-string_loop [] s) refl

flat-comma :
    (later : Bool) (rest : List Text)
    → flat ((if later then (b',' ∷ []) ∷ [] else []) ++ rest)
      ≡ (if later then b',' ∷ [] else []) ++ flat rest
flat-comma true rest = refl
flat-comma false rest = refl

module _ (int_text : ℤ → Text) (float_text : ℕ → Text) where
  -- The compact JSON text of a value, all at once.
  unfoldable mutual
    pub json_text : Json → Text
    json_text null = b'n' ∷ b'u' ∷ b'l' ∷ b'l' ∷ []
    json_text (boolean true) = b't' ∷ b'r' ∷ b'u' ∷ b'e' ∷ []
    json_text (boolean false) = b'f' ∷ b'a' ∷ b'l' ∷ b's' ∷ b'e' ∷ []
    json_text (text s) = string_text s
    json_text (integer n) = int_text n
    json_text infinite = b'n' ∷ b'u' ∷ b'l' ∷ b'l' ∷ []
    json_text (float x) = float_text x
    json_text (list xs) = b'[' ∷ (items_text false xs ++ b']' ∷ [])
    json_text (dict es) = b'{' ∷ (entries_text false es ++ b'}' ∷ [])

    pub items_text : Bool → Items → Text
    items_text later end = []
    items_text later (item x xs) =
        (if later then b',' ∷ [] else []) ++ (json_text x ++ items_text true xs)

    pub entries_text : Bool → Entries → Text
    entries_text later stop = []
    entries_text later (entry k x es) =
        (if later then b',' ∷ [] else [])
        ++ (string_text k ++ (b':' ∷ (json_text x ++ entries_text true es)))

  mutual
    unfolding json_chunks json_text

    pub flat-json_chunks : (v : Json) → flat (json_chunks int_text float_text v) ≡ json_text v
    flat-json_chunks null = refl
    flat-json_chunks (boolean true) = refl
    flat-json_chunks (boolean false) = refl
    flat-json_chunks (text s) = flat-string_chunks s
    flat-json_chunks (integer n) = append-nil (int_text n)
    flat-json_chunks infinite = refl
    flat-json_chunks (float x) = append-nil (float_text x)
    flat-json_chunks (list xs) =
        rw
          (
            flat-append (item_chunks int_text float_text false xs) ((b']' ∷ []) ∷ []),
            flat-item_chunks false xs,
          )
          refl
    flat-json_chunks (dict es) =
        rw
          (
            flat-append (entry_chunks int_text float_text false es) ((b'}' ∷ []) ∷ []),
            flat-entry_chunks false es,
          )
          refl

    flat-item_chunks :
        (later : Bool) (xs : Items)
        → flat (item_chunks int_text float_text later xs) ≡ items_text later xs
    flat-item_chunks later end = refl
    flat-item_chunks later (item x xs) =
        rw
          (
            flat-comma later
                (json_chunks int_text float_text x ++ item_chunks int_text float_text true xs),
            flat-append (json_chunks int_text float_text x)
                (item_chunks int_text float_text true xs),
            flat-json_chunks x,
            flat-item_chunks true xs,
          )
          refl

    flat-entry_chunks :
        (later : Bool) (es : Entries)
        → flat (entry_chunks int_text float_text later es) ≡ entries_text later es
    flat-entry_chunks later stop = refl
    flat-entry_chunks later (entry k x es) =
        let rest =
          (b':' ∷ [])
          ∷ (json_chunks int_text float_text x ++ entry_chunks int_text float_text true es) in
        rw
          (
            flat-comma later (string_chunks k ++ rest),
            flat-append (string_chunks k) rest,
            flat-append (json_chunks int_text float_text x)
                (entry_chunks int_text float_text true es),
            flat-string_chunks k,
            flat-json_chunks x,
            flat-entry_chunks true es,
          )
          refl
