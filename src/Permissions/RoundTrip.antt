-- ===== src/Permissions/RoundTrip.antt =====
-- A policy file that is saved and loaded again (core/permissions/storage.py).
use claudecode_lite_main.Prelude.{
  List, [], ◌∷◌, ◌++◌, some, true, false, All, if◌then◌else◌, ◌≡◌, refl, sym, ap, ◌∙◌, inl, inr,
  Bool-cases,
}
use claudecode_lite_main.Permissions.Storage.{
  Text, text_eq, is_space, is_break, entry_of, load_line, load_lines, load_policy_file, text_leb,
  insert_item, sorted_items, item_lines, header_lines, save_policy_file,
}
use claudecode_lite_main.Permissions.Saved.{text_eq_comm, text_eq_eq, Unbroken, splitlines-joined}
use claudecode_lite_main.Permissions.Loading.{
  IsPlain, Fresh, Distinct, AllFresh-nil, item_line-Unbroken, load_lines-items,
}

-- Sorting keeps the entries.

insert_item-All :
    (item : Text × Text) (m : List (Text × Text))
    → IsPlain item
    → All IsPlain m
    → All IsPlain (insert_item item m)
unfolding insert_item
insert_item-All (k, v) [] p ps = (p, tt)
insert_item-All (k, v) ((j, w) ∷ m) p (q, qs) = elim (Bool-cases (text_leb k j)) [
  | inl e ↦ simp (insert_item, e) (p, (q, qs))
  | inr e ↦ simp (insert_item, e) (q, insert_item-All (k, v) m p qs)
]

insert_item-Fresh :
    (q k v : Text) (m : List (Text × Text))
    → text_eq k q ≡ false
    → Fresh q m
    → Fresh q (insert_item (k, v) m)
unfolding insert_item
insert_item-Fresh q k v [] h f = (h, tt)
insert_item-Fresh q k v ((j, w) ∷ m) h (e, f) = elim (Bool-cases (text_leb k j)) [
  | inl l ↦ simp (insert_item, l) (h, (e, f))
  | inr l ↦ simp (insert_item, l) (e, insert_item-Fresh q k v m h f)
]

insert_item-Distinct :
    (k v : Text) (m : List (Text × Text)) → Fresh k m → Distinct m → Distinct (insert_item (k, v) m)
unfolding insert_item
insert_item-Distinct k v [] f d = (tt, tt)
insert_item-Distinct k v ((j, w) ∷ m) (e, f) (g, d) = elim (Bool-cases (text_leb k j)) [
  | inl l ↦ simp (insert_item, l) ((e, f), (g, d))
  | inr l ↦
      simp (insert_item, l)
        (insert_item-Fresh j k v m (text_eq_comm k j ∙ e) g, insert_item-Distinct k v m f d)
]

insert_item-entry_of :
    (q k v : Text) (m : List (Text × Text))
    → Fresh k m
    → entry_of q (insert_item (k, v) m) ≡ (if text_eq k q then some v else entry_of q m)
unfolding insert_item entry_of
insert_item-entry_of q k v [] f = refl
insert_item-entry_of q k v ((j, w) ∷ m) (e, f) = elim (Bool-cases (text_leb k j)) [
  | inl l ↦ simp (insert_item, l) refl
  | inr l ↦ elim (Bool-cases (text_eq k q)) [
    | inl a ↦
        let same = text_eq_eq k q a in
        let other : text_eq j q ≡ false = rw (sym same) e in
        simp (insert_item, l, entry_of, other, insert_item-entry_of q k v m f, a) refl
    | inr a ↦ simp (insert_item, l, entry_of, insert_item-entry_of q k v m f, a) refl
  ]
]

sorted_items-All : (m : List (Text × Text)) → All IsPlain m → All IsPlain (sorted_items m)
unfolding sorted_items
sorted_items-All [] p = tt
sorted_items-All (item ∷ m) (p, ps) =
    insert_item-All item (sorted_items m) p (sorted_items-All m ps)

sorted_items-Fresh : (q : Text) (m : List (Text × Text)) → Fresh q m → Fresh q (sorted_items m)
unfolding sorted_items
sorted_items-Fresh q [] f = tt
sorted_items-Fresh q ((k, v) ∷ m) (e, f) =
    insert_item-Fresh q k v (sorted_items m) e (sorted_items-Fresh q m f)

sorted_items-Distinct : (m : List (Text × Text)) → Distinct m → Distinct (sorted_items m)
unfolding sorted_items
sorted_items-Distinct [] d = tt
sorted_items-Distinct ((k, v) ∷ m) (f, d) =
    insert_item-Distinct k v (sorted_items m) (sorted_items-Fresh k m f) (sorted_items-Distinct m d)

sorted_items-entry_of :
    (q : Text) (m : List (Text × Text)) → Distinct m → entry_of q (sorted_items m) ≡ entry_of q m
unfolding sorted_items entry_of
sorted_items-entry_of q [] d = refl
sorted_items-entry_of q ((k, v) ∷ m) (f, d) =
    insert_item-entry_of q k v (sorted_items m) (sorted_items-Fresh k m f)
    ∙ simp (sorted_items-entry_of q m d) refl

item_lines-Unbroken : (m : List (Text × Text)) → All IsPlain m → All Unbroken (item_lines m)
item_lines-Unbroken [] p = tt
item_lines-Unbroken (item ∷ m) (p, ps) = (item_line-Unbroken item p, item_lines-Unbroken m ps)

header_loaded :
    (lines : List Text)
    → load_lines (header_lines ++ lines) (false, []) ≡ load_lines lines (true, [])
unfolding load_lines load_line is_space
header_loaded lines = refl

header-Unbroken : (lines : List Text) → All Unbroken lines → All Unbroken (header_lines ++ lines)
unfolding is_break
header-Unbroken lines h = (refl, (refl, (refl, (refl, h))))

-- A policy file that was saved is loaded with the same decisions, in the order of the tools' names, if each tool
-- has one decision, `allow` or `deny`, and its name can stand in a line of the file: it is not empty, has no
-- line break and no `=` in it, no white space around it, and does not begin with `[` or `#`.
pub load-save :
    (always : List (Text × Text))
    → All IsPlain always
    → Distinct always
    → (load_policy_file (some (save_policy_file always)) ≡ sorted_items always)
      × ((tool : Text)
          → entry_of tool (load_policy_file (some (save_policy_file always)))
            ≡ entry_of tool always)
unfolding load_policy_file save_policy_file
load-save always p d =
    (loaded, λ tool. ap (entry_of tool) loaded ∙ sorted_items-entry_of tool always d)
  where
    sorted_p : All IsPlain (sorted_items always)
    sorted_p = sorted_items-All always p

    loaded : load_policy_file (some (save_policy_file always)) ≡ sorted_items always
    loaded =
        ap (λ lines. (load_lines lines (false, [])).1)
          (splitlines-joined (header_lines ++ item_lines (sorted_items always)) (
            header-Unbroken (item_lines (sorted_items always))
              (item_lines-Unbroken (sorted_items always) sorted_p)))
        ∙ ap (λ x. x.1)
            (header_loaded (item_lines (sorted_items always))
              ∙ load_lines-items (sorted_items always) [] sorted_p (sorted_items-Distinct always d)
                  (AllFresh-nil (sorted_items always)))
