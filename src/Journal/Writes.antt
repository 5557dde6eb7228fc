-- ===== src/Journal/Writes.antt =====
-- The write of a batch and the receipts behind it (core/events/journal.py, `_worker_loop`).
use claudecode_lite_main.Prelude.{
  ℕ, zero, suc, ◌+◌, inr, ◌≤◌, List, [], ◌∷◌, ◌++◌, length, length-append, ◌≡◌, refl, sym, ap, ◌∙◌,
  inl, arith,
}
use mathlib.Core.Path.{subst}
use mathlib.Core.List.{append_assoc, append-nil}
use claudecode_lite_main.Journal.Stream.{
  Lifecycle, open_stream, degraded, QueuedRecord, JournalRecord, written, append_rows, StreamState,
  settle_item, settle_items, after_batch, commit_batch, closed_if_drained,
}
use claudecode_lite_main.Journal.Invariant.{NumberedFrom, RowsFrom, RowsFrom-snoc, from, IsValid}

RowsFrom-written :
    (n m k : ℕ) (rs : List JournalRecord) (items rest : List QueuedRecord)
    → m ≡ n + length rs
    → RowsFrom n rs
    → NumberedFrom m (items ++ rest)
    → RowsFrom n (rs ++ written k items)
RowsFrom-written n m zero rs items rest e h w = rw (append-nil rs) h
RowsFrom-written n m (suc k) rs [] rest e h w = rw (append-nil rs) h
RowsFrom-written n m (suc k) rs (item ∷ items) rest e h w =
    let one = RowsFrom-snoc n m rs item.record_of e h w.0 in
    let l = length-append rs (item.record_of ∷ []) in
    rw (sym (append_assoc rs (item.record_of ∷ []) (written k items))) (
      RowsFrom-written n (suc m) k (rs ++ item.record_of ∷ []) items rest (omega (arith, l)) one
        w.1)

written_few : (k : ℕ) (items : List QueuedRecord) → length (written k items) ≤ length items
written_few zero items = omega arith
written_few (suc k) [] = omega arith
written_few (suc k) (item ∷ items) = omega (arith, written_few k items)

written-empty : (k : ℕ) (items : List QueuedRecord) → length items ≡ 0 → written k items ≡ []
written-empty zero items h = refl
written-empty (suc k) [] h = refl
written-empty (suc k) (item ∷ items) h = ground (arith, h)

pub append_rows-IsValid :
    (base n : ℕ) (s : StreamState)
    → s.unsettled ≡ 0
    → IsValid base s
    → IsValid base (append_rows n s)
unfolding append_rows
append_rows-IsValid base n s e v =
    let batch = written n s.in_flight in
    let more = length-append s.rows batch in
    record {
      rows_numbered = elim v.on_disk [
        | inl (d, z) ↦
            let none_left = length-append s.in_flight s.queue in
            let nothing : batch ≡ [] = written-empty n s.in_flight (omega (arith, v.frames)) in
            rw (nothing, append-nil s.rows) v.rows_numbered
        | inr h ↦
            RowsFrom-written (suc base) (suc s.durable_seq) n s.rows s.in_flight s.queue
              (omega arith) v.rows_numbered v.numbered
      ];
      acknowledged = v.acknowledged;
      durable_is_last = v.durable_is_last;
      durable_on_disk = omega (arith, v.durable_on_disk);
      on_disk = elim v.on_disk [ inl h ↦ inl h | inr h ↦ inr (omega arith) ];
      unsettled_few = written_few n s.in_flight;
      numbered = v.numbered;
      next_behind = v.next_behind;
      frames = v.frames;
      bytes = v.bytes;
      frames_bounded = v.frames_bounded;
      bytes_bounded = v.bytes_bounded;
    }

-- The items that wait to be settled, seen as rows in flight.
abbrev flying : List QueuedRecord → StreamState → StreamState
flying items s = record s { in_flight = items }

from-snoc : (n k : ℕ) → from n k ++ (n + k) ∷ [] ≡ from n (suc k)
from-snoc n zero = let same : n + 0 ≡ n = omega arith in rw same
from-snoc n (suc k) =
    let same : n + suc k ≡ suc n + k = omega arith in rw (same, from-snoc (suc n) k)

one_more :
    (n : ℕ) (xs : List ℕ) (x : ℕ)
    → xs ≡ from n (length xs)
    → x ≡ n + length xs
    → xs ++ x ∷ [] ≡ from n (length (xs ++ x ∷ []))
one_more n xs x h e =
    let l : length (xs ++ x ∷ []) ≡ suc (length xs) = omega (arith, length-append xs (x ∷ [])) in
    ap (λ l. l ++ x ∷ []) h
    ∙ ap (λ y. from n (length xs) ++ y ∷ []) e
    ∙ from-snoc n (length xs)
    ∙ ap (λ k. from n k) (sym l)

settle_item-IsValid :
    (base : ℕ) (item : QueuedRecord) (items : List QueuedRecord) (s : StreamState)
    → s.unsettled ≡ length (item ∷ items)
    → IsValid base (flying (item ∷ items) s)
    → IsValid base (flying items (settle_item item s))
unfolding settle_item
settle_item-IsValid base item items s e v = record {
  rows_numbered = v.rows_numbered;
  acknowledged =
      one_more (suc base) s.resolved item.record_of.seq v.acknowledged
        (omega (arith, v.numbered.0, v.durable_is_last));
  durable_is_last =
      omega (
        arith,
        length-append s.resolved (item.record_of.seq ∷ []),
        v.numbered.0,
        v.durable_is_last,
      );
  durable_on_disk = elim v.on_disk [
    | inl h ↦ omega (arith, v.frames)
    | inr h ↦ omega (arith, v.numbered.0)
  ];
  on_disk = elim v.on_disk [
    | inl h ↦ omega (arith, v.frames)
    | inr h ↦ inr (omega (arith, v.numbered.0))
  ];
  unsettled_few = omega arith;
  numbered = rw v.numbered.0 v.numbered.1;
  next_behind = λ o. omega (arith, v.numbered.0, v.next_behind o);
  frames = omega (arith, v.frames);
  bytes = omega (arith, v.bytes);
  frames_bounded = omega (arith, v.frames_bounded);
  bytes_bounded = omega (arith, v.bytes_bounded);
}

settle_items-IsValid :
    (base : ℕ) (items : List QueuedRecord) (s : StreamState)
    → s.unsettled ≡ length items
    → IsValid base (flying items s)
    → IsValid base (flying [] (settle_items items s))
unfolding settle_items
settle_items-IsValid base [] s e v = v
settle_items-IsValid base (item ∷ items) s e v =
    settle_items-IsValid base items (settle_item item s) (unfold settle_item in omega arith)
      (settle_item-IsValid base item items s e v)

settle_items-in_flight :
    (items : List QueuedRecord) (s : StreamState) → (settle_items items s).in_flight ≡ s.in_flight
unfolding settle_items
settle_items-in_flight [] s = refl
settle_items-in_flight (item ∷ items) s =
    unfold settle_item in settle_items-in_flight items (settle_item item s)

closed_if_drained-open :
    (queue : List QueuedRecord) (l : Lifecycle)
    → closed_if_drained queue l ≡ open_stream
    → l ≡ open_stream
closed_if_drained-open queue l h = ground arith

closed_if_drained-degraded :
    (queue : List QueuedRecord) (l : Lifecycle)
    → l ≡ degraded
    → closed_if_drained queue l ≡ degraded
closed_if_drained-degraded queue l h = ground arith

after_batch-IsValid : (base : ℕ) (s : StreamState) → IsValid base s → IsValid base (after_batch s)
unfolding after_batch
after_batch-IsValid base s v = record {
  rows_numbered = v.rows_numbered;
  acknowledged = v.acknowledged;
  durable_is_last = v.durable_is_last;
  durable_on_disk = v.durable_on_disk;
  on_disk = elim v.on_disk [
    | inl (d, z) ↦ inl (closed_if_drained-degraded s.queue s.lifecycle d, z)
    | inr h ↦ inr h
  ];
  unsettled_few = v.unsettled_few;
  numbered = v.numbered;
  next_behind = λ o. v.next_behind (closed_if_drained-open s.queue s.lifecycle o);
  frames = v.frames;
  bytes = v.bytes;
  frames_bounded = v.frames_bounded;
  bytes_bounded = v.bytes_bounded;
}

pub commit_batch-IsValid :
    (base : ℕ) (s : StreamState)
    → s.unsettled ≡ length s.in_flight
    → IsValid base s
    → IsValid base (commit_batch s)
unfolding commit_batch
commit_batch-IsValid base s e v =
    let landed = settle_items s.in_flight (flying [] s) in
    let empty : landed.in_flight ≡ [] = settle_items-in_flight s.in_flight (flying [] s) in
    let settled : IsValid base (flying [] landed) =
      settle_items-IsValid base s.in_flight (flying [] s) e v in
    after_batch-IsValid base landed
      (subst (λ l. IsValid base (flying l landed)) (sym empty) settled)
