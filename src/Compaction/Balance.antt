-- ===== src/Compaction/Balance.antt =====
-- When every tool call of a prefix is answered in it (core/compact/compactor.py, `_is_balanced_prefix`).
use claudecode_lite_main.Prelude.{
  String, str_eq, eq_iff, eq_refl, List, [], ◌∷◌, ◌++◌, Option, none, some, Bool, true, false, ◌&&◌,
  ◌||◌, not, keep, any, mem, ◌≡◌, refl, sym, ap, ◌∙◌, ◌↔◌, arith, inl, inr, Bool-cases,
  Option-cases,
}
use claudecode_lite_main.Compaction.Prefix.{
  Block, tool_use, tool_result, other_block, Message, add_pending, started, ended, after_message,
  pending_after, is_empty, is_balanced_prefix,
}

abbrev pub uses : String → Block → Bool
uses i (tool_use j) = str_eq j i
uses i (tool_result j) = false
uses i other_block = false

abbrev pub answers : String → Block → Bool
answers i (tool_use j) = false
answers i (tool_result j) = str_eq j i
answers i other_block = false

-- Whether one call is open behind a message, if it is or is not before it.
abbrev pub open_blocks : Bool → Bool → String → List Block → Bool → Bool
open_blocks true u i bs was_open = was_open || any (uses i) bs
open_blocks false true i bs was_open = was_open && not (any (answers i) bs)
open_blocks false false i bs was_open = was_open

abbrev pub open_content : Message → String → Option (List Block) → Bool → Bool
open_content m i none was_open = was_open
open_content m i (some bs) was_open =
    open_blocks (str_eq m.role "assistant") (str_eq m.role "user") i bs was_open

abbrev pub open_after : String → List Message → Bool → Bool
open_after i [] was_open = was_open
open_after i (m ∷ ms) was_open = open_after i ms (open_content m i m.content was_open)

mem-append : (i j : String) (p : List String) → mem i (p ++ j ∷ []) ≡ mem i p || str_eq j i
unfolding mem
mem-append i j [] = ground arith
mem-append i j (k ∷ p) = ground (arith, mem-append i j p)

mem-add_pending : (i j : String) (p : List String) → mem i (add_pending j p) ≡ mem i p || str_eq j i
mem-add_pending i j p = elim (Bool-cases (mem j p)) [
  | inr e ↦ simp e (mem-append i j p)
  | inl e ↦ elim (Bool-cases (str_eq j i)) [
    | inl f ↦
        let same = (eq_iff j i).0 f in
        let there : mem i p ≡ true = rw (sym same) e in simp (e, there) refl
    | inr f ↦ simp (e, f) (ground arith)
  ]
]

mem-keep :
    (i j : String) (p : List String)
    → mem i (keep (λ k. not (str_eq k j)) p) ≡ mem i p && not (str_eq j i)
unfolding mem
mem-keep i j [] = refl
mem-keep i j (k ∷ p) = ground (arith, mem-keep i j p, eq_iff k j, eq_iff k i, eq_iff j i)

mem-started :
    (i : String) (bs : List Block) (p : List String)
    → mem i (started bs p) ≡ mem i p || any (uses i) bs
mem-started i [] p = ground arith
mem-started i (tool_use j ∷ bs) p =
    ground (arith, mem-started i bs (add_pending j p), mem-add_pending i j p)
mem-started i (tool_result j ∷ bs) p = mem-started i bs p
mem-started i (other_block ∷ bs) p = mem-started i bs p

mem-ended :
    (i : String) (bs : List Block) (p : List String)
    → mem i (ended bs p) ≡ mem i p && not (any (answers i) bs)
mem-ended i [] p = ground arith
mem-ended i (tool_result j ∷ bs) p =
    ground (arith, mem-ended i bs (keep (λ k. not (str_eq k j)) p), mem-keep i j p)
mem-ended i (tool_use j ∷ bs) p = mem-ended i bs p
mem-ended i (other_block ∷ bs) p = mem-ended i bs p

mem-after_message :
    (i : String) (m : Message) (p : List String)
    → mem i (after_message m p) ≡ open_content m i m.content (mem i p)
unfolding after_message
mem-after_message i m p = elim (Option-cases m.content) [
  | inl e ↦ simp (after_message, e) refl
  | inr (bs, e) ↦ elim (Bool-cases (str_eq m.role "assistant")) [
    | inl a ↦ simp (after_message, e, a) (mem-started i bs p)
    | inr a ↦ elim (Bool-cases (str_eq m.role "user")) [
      | inl u ↦ simp (after_message, e, a, u) (mem-ended i bs p)
      | inr u ↦ simp (after_message, e, a, u) refl
    ]
  ]
]

mem-pending_after :
    (i : String) (ms : List Message) (p : List String)
    → mem i (pending_after ms p) ≡ open_after i ms (mem i p)
unfolding pending_after
mem-pending_after i [] p = refl
mem-pending_after i (m ∷ ms) p =
    mem-pending_after i ms (after_message m p) ∙ ap (open_after i ms) (mem-after_message i m p)

empty_lem : (p : List String) → (is_empty p ≡ true) ↔ ((i : String) → mem i p ≡ false)
unfolding mem
empty_lem [] = (λ h i. refl, λ h. refl)
empty_lem (j ∷ p) = (
  λ h i. cc,
  λ h.
      let here : mem j (j ∷ p) ≡ true = simp (mem, eq_refl j) refl in
      let never = sym here ∙ h j in cc,
)

-- A prefix counts as balanced just when no tool call is open at its end, where the assistant's blocks open calls
-- and the blocks of a user's message answer those that are open.
pub is_balanced_prefix-exact :
    (ms : List Message)
    → (is_balanced_prefix ms ≡ true) ↔ ((i : String) → open_after i ms false ≡ false)
unfolding is_balanced_prefix mem
is_balanced_prefix-exact ms = (
  λ h i. sym (mem-pending_after i ms []) ∙ (empty_lem (pending_after ms [])).0 h i,
  λ h. (empty_lem (pending_after ms [])).1 (λ i. mem-pending_after i ms [] ∙ h i),
)
