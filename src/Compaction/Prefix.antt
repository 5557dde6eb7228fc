-- ===== src/Compaction/Prefix.antt =====
-- core/compact/compactor.py: `_is_balanced_prefix` and `_select_admissible_prefix`. The estimates of tokens, and
-- what the gateway admits, are parameters; the products of the context window with the ratios are given as
-- numbers.
use claudecode_lite_main.Prelude.{
  ℕ, zero, suc, ◌+◌, ◌-◌, ◌/◌, max, min, String, str_eq, List, [], ◌∷◌, ◌++◌, Option, none, some,
  Bool, true, false, ◌&&◌, ◌||◌, ltb, leb, length, ◌==◌, not, keep, any, mem, if◌then◌else◌,
}
use claudecode_lite_main.Prelude.Int.{ℤ, to_nat}

-- The blocks of a message by what the pairing of tools reads.
pub data Block : Type 0 where
  tool_use : String → Block
  tool_result : String → Block
  other_block : Block

-- `content` is `none` if it is no list; `text` stands for what is not read here.
pub record Message : Type 0 where
  pub role : String
  pub content : Option (List Block)
  pub message_id : String
  pub text : String

abbrev pub add_pending : String → List String → List String
add_pending i pending = if mem i pending then pending else pending ++ i ∷ []

-- The tools that a block of the assistant starts, and those that a block of the user ends.
abbrev pub started : List Block → List String → List String
started [] pending = pending
started (tool_use i ∷ bs) pending = started bs (add_pending i pending)
started (tool_result i ∷ bs) pending = started bs pending
started (other_block ∷ bs) pending = started bs pending

abbrev pub ended : List Block → List String → List String
ended [] pending = pending
ended (tool_result i ∷ bs) pending = ended bs (keep (λ j. not (str_eq j i)) pending)
ended (tool_use i ∷ bs) pending = ended bs pending
ended (other_block ∷ bs) pending = ended bs pending

unfoldable pub after_message : Message → List String → List String
after_message m pending = elim m.content [
  | none ↦ pending
  | some blocks ↦
      if str_eq m.role "assistant"
      then started blocks pending
      else if str_eq m.role "user"
      then ended blocks pending
      else pending
]

unfoldable pub pending_after : List Message → List String → List String
unfolding after_message
pending_after [] pending = pending
pending_after (m ∷ ms) pending = pending_after ms (after_message m pending)

abbrev pub is_empty {ℓ} : {A : Type ℓ} → List A → Bool
is_empty [] = true
is_empty (x ∷ xs) = false

unfoldable pub is_balanced_prefix : List Message → Bool
unfolding pending_after
is_balanced_prefix ms = is_empty (pending_after ms [])

-- `messages[:end]` and `messages[end:]`.
abbrev pub take {ℓ} : {A : Type ℓ} → ℕ → List A → List A
take zero xs = []
take (suc n) [] = []
take (suc n) (x ∷ xs) = x ∷ take n xs

abbrev pub drop {ℓ} : {A : Type ℓ} → ℕ → List A → List A
drop zero xs = xs
drop (suc n) [] = []
drop (suc n) (x ∷ xs) = drop n xs

-- `tail_share` is `int(context_window * recent_tail_ratio)`, with a negative ratio taken as 0, and `target` is
-- `int(context_window * target_ratio)`.
pub record TailPolicy : Type 0 where
  pub recent_tail_max_tokens : ℤ
  pub tail_share : ℤ
  pub target : ℕ

unfoldable pub tail_floor : TailPolicy → ℕ → ℕ
tail_floor policy total =
    let requested = min (to_nat policy.recent_tail_max_tokens) (to_nat policy.tail_share) in
    if leb policy.target total then min requested (total - 1) else 0

-- `int.bit_length`; the first number bounds the recursion, and is at least the second.
unfoldable pub bits : ℕ → ℕ → ℕ
bits zero n = 0
bits (suc k) n = let rest = suc (bits k (n / 2)) in if n == 0 then 0 else rest

pub record Range (A : Type 0) : Type 0 where
  pub low : ℕ
  pub high : ℕ
  pub best_end : ℕ
  pub best_admission : Option A

module _ {A : Type 0} (try_end : ℕ → Option A) where
  -- A turn of the binary search.
  unfoldable pub probe : Range A → Range A
  probe s =
      let mid = (s.low + s.high) / 2 in
      elim (try_end mid) as (λ o. Range A) [
        | none ↦ record s { high = mid - 1 }
        | some a ↦ record s { best_end = mid; best_admission = some a; low = mid + 1 }
      ]

  unfoldable pub search : ℕ → Range A → Range A
  unfolding probe
  search zero s = s
  search (suc k) s = let on = search k (probe s) in if ltb s.high s.low then s else on

  -- The scan behind it, from the given end down to the one after `best_end`.
  unfoldable pub scan : ℕ → ℕ → Option (ℕ × A)
  scan best_end zero = none
  scan best_end (suc e) =
      let rest = scan best_end e in
      let found = elim (try_end (suc e)) as (λ o. Option (ℕ × A)) [
        | none ↦ rest
        | some a ↦ some (suc e, a)
      ] in
      if leb (suc e) best_end then none else found

  abbrev pub start : ℕ → Range A
  start n = record { low = 1; high = n; best_end = 0; best_admission = none }

  unfoldable pub searched : ℕ → Range A
  unfolding search bits
  searched n = search (max 1 (bits n n + 1)) (start n)

  abbrev pub scan_start : ℕ → Range A → ℕ
  scan_start n s = min n (max s.best_end (max (s.high + 1) 64))

  abbrev pub best_of : ℕ → Option A → Option (ℕ × A)
  best_of best_end none = none
  best_of best_end (some a) = if leb best_end 0 then none else some (best_end, a)

  abbrev pub or_best : Range A → Option (ℕ × A) → Option (ℕ × A)
  or_best s (some found) = some found
  or_best s none = best_of s.best_end s.best_admission

  -- The end of the prefix, and its admission.
  unfoldable pub best_prefix : ℕ → Option (ℕ × A)
  unfolding searched scan
  best_prefix n = let s = searched n in or_best s (scan s.best_end (scan_start n s))

module _ {A : Type 0} (estimate : List Message → ℕ) (admit : List Message → Option A)
    (protected_message_ids : List String) where
  unfoldable pub try_end : ℕ → List Message → ℕ → Option A
  unfolding is_balanced_prefix
  try_end floor messages end =
      let candidate = take end messages in
      if is_empty candidate || not (is_balanced_prefix candidate)
      then none
      else if not (floor == 0) && ltb (estimate (drop end messages)) floor
      then none
      else if any (λ m. mem m.message_id protected_message_ids) candidate
      then none
      else admit candidate

  -- `total` is the estimate of the whole request.
  unfoldable pub select_admissible_prefix :
      TailPolicy → ℕ → List Message → Option (List Message × List Message × A)
  unfolding best_prefix try_end tail_floor
  select_admissible_prefix policy total [] = none
  select_admissible_prefix policy total (m ∷ ms) =
      let messages = m ∷ ms in
      elim (best_prefix (try_end (tail_floor policy total) messages) (length messages)) [
        | none ↦ none
        | some (end, a) ↦ some (take end messages, drop end messages, a)
      ]
