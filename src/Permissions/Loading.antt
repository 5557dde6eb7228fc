-- ===== src/Permissions/Loading.antt =====
-- Loading the lines of a policy file's entries (core/permissions/storage.py, `load_policy_file`).
use mathlib.Core.List.{append_assoc, append-nil}
use claudecode_lite_main.Prelude.{
  ℕ, List, [], ◌∷◌, ◌++◌, true, false, ◌||◌, ◌==◌, any, All, ◌≡◌, refl, sym, ap, ◌∙◌, ◌⊎◌, inl, inr,
}
use claudecode_lite_main.Permissions.Storage.{
  Text, text_eq, is_space, is_break, lstrip, rstrip, strip, partition, begins, always_section,
  allow_text, deny_text, with_entry, is_quote, load_entry, load_line, load_lines, item_line,
  item_lines,
}
use claudecode_lite_main.Permissions.Saved.{
  text_eq_comm, Unbroken, rstrip-append, rstrip-snoc, any-append, partition-append,
}

-- A tool name that a line can carry, and one of the two decisions.
pub record IsPlain (item : Text × Text) : Type 0 where
  pub head : ℕ
  pub tail : Text
  pub name : item.0 ≡ head ∷ tail
  pub no_space : is_space head ≡ false
  pub no_section : (head == 91) ≡ false
  pub no_comment : (head == 35) ≡ false
  pub no_space_behind : rstrip is_space item.0 ≡ item.0
  pub no_equals : any (λ c. c == 61) item.0 ≡ false
  pub one_line : any is_break item.0 ≡ false
  pub decided : (item.1 ≡ allow_text) ⊎ (item.1 ≡ deny_text)

abbrev suffix : Text → Text
suffix decision = b' ' ∷ b'=' ∷ b' ' ∷ b'"' ∷ (decision ++ b'"' ∷ [])

suffix_ends :
    (d : Text) → (d ≡ allow_text) ⊎ (d ≡ deny_text) → rstrip is_space (suffix d) ≡ suffix d
unfolding is_space
suffix_ends d (inl e) = rw e refl
suffix_ends d (inr e) = rw e refl

suffix_parts :
    (d : Text)
    → (d ≡ allow_text) ⊎ (d ≡ deny_text)
    → (strip is_quote (strip is_space (partition (suffix d)).1) ≡ d)
      × (text_eq d allow_text || text_eq d deny_text ≡ true)
      × (any is_break (suffix d) ≡ false)
unfolding is_space is_break
suffix_parts d (inl e) = rw e (refl, refl, refl)
suffix_parts d (inr e) = rw e (refl, refl, refl)

pub item_line-Unbroken : (item : Text × Text) → IsPlain item → Unbroken (item_line item)
item_line-Unbroken (tool, d) p =
    any-append is_break tool (suffix d) ∙ simp (p.one_line, (suffix_parts d p.decided).2) refl

item_line-strip :
    (item : Text × Text) → IsPlain item → strip is_space (item_line item) ≡ item_line item
item_line-strip (tool, d) p =
    let kept : lstrip is_space (tool ++ suffix d) ≡ tool ++ suffix d =
      rw p.name (simp p.no_space refl) in
    rw kept (
      rstrip-append is_space tool (suffix d) (b' ') (b'=' ∷ b' ' ∷ b'"' ∷ (d ++ b'"' ∷ []))
        (suffix_ends d p.decided))

tool_alone : (item : Text × Text) → IsPlain item → strip is_space (item.0 ++ b' ' ∷ []) ≡ item.0
unfolding is_space
tool_alone (tool, d) p =
    let kept : lstrip is_space (tool ++ b' ' ∷ []) ≡ tool ++ b' ' ∷ [] =
      rw p.name (simp p.no_space refl) in
    rw kept (rstrip-snoc is_space tool (b' ') refl ∙ p.no_space_behind)

load_entry-item :
    (item : Text × Text) (result : List (Text × Text))
    → IsPlain item
    → load_entry (item_line item) result ≡ with_entry item.0 item.1 result
unfolding load_entry
load_entry-item (tool, d) result p =
    let q = suffix_parts d p.decided in
    simp
      (load_entry, partition-append tool (suffix d) p.no_equals, q.0, q.1, tool_alone (tool, d) p)
      refl

-- What the tests of the loop see of an item's line.
item_line-tests :
    (item : Text × Text)
    → IsPlain item
    → (text_eq (item_line item) always_section ≡ false)
      × (begins (b'[') (item_line item) ≡ false)
      × (begins (b'#') (item_line item) ≡ false)
      × (any (λ c. c == 61) (item_line item) ≡ true)
item_line-tests (tool, d) p = (
  rw p.name (simp p.no_section refl),
  rw p.name p.no_section,
  rw p.name p.no_comment,
  any-append (λ c. c == 61) tool (suffix d) ∙ simp p.no_equals refl,
)

load_line-item :
    (item : Text × Text) (result : List (Text × Text))
    → IsPlain item
    → load_line (item_line item) (true, result) ≡ (true, with_entry item.0 item.1 result)
unfolding load_line
load_line-item (tool, d) result p =
    let tests = item_line-tests (tool, d) p in
    simp
      (
        load_line,
        item_line-strip (tool, d) p,
        tests.0,
        tests.1,
        tests.2,
        tests.3,
        load_entry-item (tool, d) result p,
      )
      refl

-- The entries of a dict, each with its own key.
abbrev pub Fresh : Text → List (Text × Text) → Type 0
Fresh k [] = Unit
Fresh k ((j, w) ∷ m) = (text_eq j k ≡ false) × Fresh k m

abbrev pub Distinct : List (Text × Text) → Type 0
Distinct [] = Unit
Distinct ((k, v) ∷ m) = Fresh k m × Distinct m

abbrev pub AllFresh : List (Text × Text) → List (Text × Text) → Type 0
AllFresh [] m = Unit
AllFresh ((k, v) ∷ items) m = Fresh k m × AllFresh items m

with_entry-Fresh :
    (k v : Text) (m : List (Text × Text)) → Fresh k m → with_entry k v m ≡ m ++ (k, v) ∷ []
unfolding with_entry
with_entry-Fresh k v [] h = refl
with_entry-Fresh k v ((j, w) ∷ m) (h, hs) = simp (with_entry, h, with_entry-Fresh k v m hs) refl

Fresh-snoc :
    (q k v : Text) (m : List (Text × Text))
    → Fresh q m
    → text_eq k q ≡ false
    → Fresh q (m ++ (k, v) ∷ [])
Fresh-snoc q k v [] h e = (e, tt)
Fresh-snoc q k v ((j, w) ∷ m) (h, hs) e = (h, Fresh-snoc q k v m hs e)

AllFresh-snoc :
    (k v : Text) (items m : List (Text × Text))
    → AllFresh items m
    → Fresh k items
    → AllFresh items (m ++ (k, v) ∷ [])
AllFresh-snoc k v [] m h f = tt
AllFresh-snoc k v ((j, w) ∷ items) m (h, hs) (e, f) =
    (Fresh-snoc j k v m h (text_eq_comm k j ∙ e), AllFresh-snoc k v items m hs f)

pub AllFresh-nil : (items : List (Text × Text)) → AllFresh items []
AllFresh-nil [] = tt
AllFresh-nil ((k, v) ∷ items) = (tt, AllFresh-nil items)

pub load_lines-items :
    (items m : List (Text × Text))
    → All IsPlain items
    → Distinct items
    → AllFresh items m
    → load_lines (item_lines items) (true, m) ≡ (true, m ++ items)
unfolding load_lines
load_lines-items [] m p d f = ap (λ x. (true, x)) (sym (append-nil m))
load_lines-items ((k, v) ∷ items) m (p, ps) (e, d) (f, fs) =
    ap (load_lines (item_lines items))
      (load_line-item (k, v) m p ∙ ap (λ x. (true, x)) (with_entry-Fresh k v m f))
    ∙ (load_lines-items items (m ++ (k, v) ∷ []) ps d (AllFresh-snoc k v items m fs e)
        ∙ ap (λ x. (true, x)) (append_assoc m ((k, v) ∷ []) items))
