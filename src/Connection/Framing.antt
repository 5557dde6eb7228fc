-- ===== src/Connection/Framing.antt =====
-- The bytes of a frame: the bounded encoder against the plain one, and the frame's only newline
-- (core/transport/connection.py, `_encode_frame`).
use claudecode_lite_main.Prelude.{
  ℕ, ◌+◌, ◌≤◌, List, [], ◌∷◌, ◌++◌, Option, none, some, Bool, true, false, ltb, any, length,
  length-append, ◌≡◌, refl, sym, ap, inl, inr, arith, ◌==◌, if◌then◌else◌, Option-cases, Bool-cases,
}
use claudecode_lite_main.Prelude.Int.{ℤ}
use mathlib.Core.List.{append_assoc, append-nil}
use claudecode_lite_main.Connection.Json.{
  Text, Json, null, boolean, text, integer, infinite, float, list, dict, Items, end, item, Entries,
  stop, entry, max_outbound_frame_bytes, escaped, json_chunks, utf8_char, utf8, encode_loop,
  encode_frame,
}
use claudecode_lite_main.Connection.Chunks.{
  flat, char_text, inner_text, string_text, json_text, items_text, entries_text, flat-json_chunks,
}

abbrev joined : Option (List ℕ) → Option (List ℕ) → Option (List ℕ)
joined none b = none
joined (some a) none = none
joined (some a) (some b) = some (a ++ b)

joined-nil : (b : Option (List ℕ)) → b ≡ joined (some []) b
joined-nil none = refl
joined-nil (some b) = refl

utf8-append : (xs ys : Text) → utf8 (xs ++ ys) ≡ joined (utf8 xs) (utf8 ys)
unfolding utf8
utf8-append [] ys = joined-nil (utf8 ys)
utf8-append (x ∷ xs) ys = elim (Option-cases (utf8_char x)) [
  | inl e ↦ rw (utf8, e) refl
  | inr (a, e) ↦ elim (Option-cases (utf8 xs)) [
    | inl f ↦ rw (utf8, e, utf8-append xs ys, f) refl
    | inr (b, f) ↦ elim (Option-cases (utf8 ys)) [
      | inl g ↦ rw (utf8, e, utf8-append xs ys, f, g) refl
      | inr (c, g) ↦ rw (utf8, e, utf8-append xs ys, f, g) (ap some (sym (append_assoc a b c)))
    ]
  ]
]

-- The whole text behind what is encoded already, cut off by its final length only.
abbrev pub bounded : List ℕ → Option (List ℕ) → Option (List ℕ)
bounded encoded none = none
bounded encoded (some bs) =
    if ltb max_outbound_frame_bytes (length (encoded ++ bs) + 1)
    then none
    else some ((encoded ++ bs) ++ 10 ∷ [])

bounded_over :
    (encoded bs : List ℕ) (more : Option (List ℕ))
    → ltb max_outbound_frame_bytes (length encoded + length bs + 1) ≡ true
    → bounded encoded (joined (some bs) more) ≡ none
bounded_over encoded bs none h = refl
bounded_over encoded bs (some more) h =
    ground (arith, length-append encoded (bs ++ more), length-append bs more)

bounded_step :
    (encoded bs : List ℕ) (more : Option (List ℕ))
    → bounded (encoded ++ bs) more ≡ bounded encoded (joined (some bs) more)
bounded_step encoded bs none = refl
bounded_step encoded bs (some more) = rw (append_assoc encoded bs more) refl

encode_loop_lem :
    (encoded : List ℕ) (chunks : List Text)
    → length encoded + 1 ≤ max_outbound_frame_bytes
    → encode_loop encoded chunks ≡ bounded encoded (utf8 (flat chunks))
unfolding encode_loop utf8
encode_loop_lem encoded [] h =
    let fits : ltb max_outbound_frame_bytes (length (encoded ++ []) + 1) ≡ false =
      ground (arith, length-append encoded []) in
    rw (fits, append-nil encoded) refl
encode_loop_lem encoded (c ∷ cs) h = elim (Option-cases (utf8 c)) [
  | inl e ↦ rw (encode_loop, utf8-append c (flat cs), e) refl
  | inr (bs, e) ↦
      elim (Bool-cases (ltb max_outbound_frame_bytes (length encoded + length bs + 1))) [
        | inl over ↦
            rw (encode_loop, utf8-append c (flat cs), e, over)
              (sym (bounded_over encoded bs (utf8 (flat cs)) over))
        | inr room ↦
            let on =
              encode_loop_lem (encoded ++ bs) cs (ground (arith, length-append encoded bs)) in
            rw (encode_loop, utf8-append c (flat cs), e, room, on)
              (bounded_step encoded bs (utf8 (flat cs)))
      ]
]

-- The bounded, chunked encoder gives what the plain one gives, the compact JSON text in UTF-8 and a newline,
-- if that is at most 1 MiB, and an error if it is longer or the text holds a surrogate.
pub encode_frame_lem :
    (int_text : ℤ → Text) (float_text : ℕ → Text) (frame : Json)
    → encode_frame int_text float_text frame
      ≡ bounded [] (utf8 (json_text int_text float_text frame))
unfolding encode_frame
encode_frame_lem int_text float_text frame =
    rw
      (
        encode_loop_lem [] (json_chunks int_text float_text frame) (omega arith),
        flat-json_chunks int_text float_text frame,
      )
      refl

abbrev pub has_newline : List ℕ → Bool
has_newline bs = any (λ b. b == 10) bs

has_newline-append :
    (xs ys : List ℕ)
    → has_newline xs ≡ false
    → has_newline ys ≡ false
    → has_newline (xs ++ ys) ≡ false
has_newline-append [] ys h k = k
has_newline-append (x ∷ xs) ys h k = ground (arith, has_newline-append xs ys)

has_newline-comma :
    (later : Bool) (t : Text)
    → has_newline t ≡ false
    → has_newline ((if later then b',' ∷ [] else []) ++ t) ≡ false
has_newline-comma true t h = h
has_newline-comma false t h = h

utf8_char-has_newline :
    (c : ℕ) (bs : List ℕ) → (c == 10) ≡ false → utf8_char c ≡ some bs → has_newline bs ≡ false
unfolding utf8_char
utf8_char-has_newline c bs h e = ground arith

utf8-has_newline :
    (t : Text) (bs : List ℕ) → has_newline t ≡ false → utf8 t ≡ some bs → has_newline bs ≡ false
unfolding utf8
utf8-has_newline [] bs h e = ground arith
utf8-has_newline (c ∷ cs) bs h e = elim (Option-cases (utf8_char c)) [
  | inl f ↦ let failed : none ≡ some bs = rw (f, utf8) at e in cc
  | inr (a, f) ↦ elim (Option-cases (utf8 cs)) [
    | inl g ↦ let failed : none ≡ some bs = rw (f, g, utf8) at e in cc
    | inr (b, g) ↦
        let made : some (a ++ b) ≡ some bs = rw (f, g, utf8) at e in
        let same : a ++ b ≡ bs = cc in
        let head : (c == 10) ≡ false = ground arith in
        let tail : has_newline cs ≡ false = ground arith in
        rw (sym same)
          (has_newline-append a b (utf8_char-has_newline c a head f) (utf8-has_newline cs b tail g))
  ]
]

char_text-has_newline : (c : ℕ) → has_newline (char_text c) ≡ false
unfolding escaped
char_text-has_newline c = ground arith

inner_text-has_newline : (s : Text) → has_newline (inner_text s) ≡ false
unfolding inner_text
inner_text-has_newline [] = refl
inner_text-has_newline (c ∷ cs) =
    has_newline-append (char_text c) (inner_text cs) (char_text-has_newline c)
      (inner_text-has_newline cs)

string_text-has_newline : (s : Text) → has_newline (string_text s) ≡ false
string_text-has_newline s =
    has_newline-append (inner_text s) (34 ∷ []) (inner_text-has_newline s) refl

module _ (int_text : ℤ → Text) (float_text : ℕ → Text)
    (int_plain : (n : ℤ) → has_newline (int_text n) ≡ false)
    (float_plain : (x : ℕ) → has_newline (float_text x) ≡ false) where
  mutual
    unfolding json_text

    json_text-has_newline : (v : Json) → has_newline (json_text int_text float_text v) ≡ false
    json_text-has_newline null = refl
    json_text-has_newline (boolean true) = refl
    json_text-has_newline (boolean false) = refl
    json_text-has_newline (text s) = string_text-has_newline s
    json_text-has_newline (integer n) = int_plain n
    json_text-has_newline infinite = refl
    json_text-has_newline (float x) = float_plain x
    json_text-has_newline (list xs) =
        has_newline-append (items_text int_text float_text false xs) (b']' ∷ [])
          (items_text-has_newline false xs) refl
    json_text-has_newline (dict es) =
        has_newline-append (entries_text int_text float_text false es) (b'}' ∷ [])
          (entries_text-has_newline false es) refl

    items_text-has_newline :
        (later : Bool) (xs : Items) → has_newline (items_text int_text float_text later xs) ≡ false
    items_text-has_newline later end = refl
    items_text-has_newline later (item x xs) =
        has_newline-comma later
          (json_text int_text float_text x ++ items_text int_text float_text true xs)
          (has_newline-append (json_text int_text float_text x)
            (items_text int_text float_text true xs) (json_text-has_newline x)
            (items_text-has_newline true xs))

    entries_text-has_newline :
        (later : Bool) (es : Entries)
        → has_newline (entries_text int_text float_text later es) ≡ false
    entries_text-has_newline later stop = refl
    entries_text-has_newline later (entry k x es) =
        let rest = json_text int_text float_text x ++ entries_text int_text float_text true es in
        has_newline-comma later (string_text k ++ (b':' ∷ rest)) (
          has_newline-append (string_text k) (b':' ∷ rest) (string_text-has_newline k) (
            has_newline-append (json_text int_text float_text x)
              (entries_text int_text float_text true es) (json_text-has_newline x)
              (entries_text-has_newline true es)))

  -- If `str` of an integer and `repr` of a float hold no newline, a frame that is encoded is at most 1 MiB
  -- long and ends with its only newline, whatever texts it carries.
  pub encode_frame_framed :
      (frame : Json) (bytes : List ℕ)
      → encode_frame int_text float_text frame ≡ some bytes
      → (line : List ℕ) × (bytes ≡ line ++ 10 ∷ [])
        × (has_newline line ≡ false)
        × (length bytes ≤ max_outbound_frame_bytes)
  encode_frame_framed frame bytes h =
      elim (Option-cases (utf8 (json_text int_text float_text frame))) [
        | inl e ↦
            let failed : none ≡ some bytes =
              rw (encode_frame_lem int_text float_text frame, e) at h in
            cc
        | inr (line, e) ↦
            let made = rw (encode_frame_lem int_text float_text frame, e) at h in
            (
              line,
              ground (arith, made),
              utf8-has_newline (json_text int_text float_text frame) line
                  (json_text-has_newline frame) e,
              ground (arith, made, length-append line (10 ∷ [])),
            )
      ]
