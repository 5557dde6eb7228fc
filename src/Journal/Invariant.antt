-- ===== src/Journal/Invariant.antt =====
-- A stream numbers its rows without a gap, writes them in the order of their numbers, and keeps its
-- bounds (core/events/journal.py).
use claudecode_lite_main.Prelude.{
  ℕ, zero, suc, ◌+◌, ◌≤◌, ◌<◌, String, List, [], ◌∷◌, ◌++◌, length, length-append, ◌≡◌, sym, arith,
  ◌⊎◌, inl, inr,
}
use mathlib.Core.List.{append_assoc}
use claudecode_lite_main.Journal.Stream.{
  journal_queue_max_frames, journal_queue_max_bytes, open_stream, degraded, JournalRecord,
  QueuedRecord, StreamState, size_of, total_size, new_stream, enqueue,
}

-- The records carry the numbers from `n` on.
abbrev pub NumberedFrom : ℕ → List QueuedRecord → Type 0
NumberedFrom n [] = Unit
NumberedFrom n (item ∷ items) = (item.record_of.seq ≡ n) × NumberedFrom (suc n) items

abbrev pub RowsFrom : ℕ → List JournalRecord → Type 0
RowsFrom n [] = Unit
RowsFrom n (r ∷ rs) = (r.seq ≡ n) × RowsFrom (suc n) rs

pub NumberedFrom-append :
    (n m : ℕ) (xs ys : List QueuedRecord)
    → m ≡ n + length xs
    → NumberedFrom n xs
    → NumberedFrom m ys
    → NumberedFrom n (xs ++ ys)
NumberedFrom-append n m [] ys e h k = let same : m ≡ n = omega arith in rw same at k
NumberedFrom-append n m (x ∷ xs) ys e h k =
    (h.0, NumberedFrom-append (suc n) m xs ys (omega arith) h.1 k)

pub RowsFrom-snoc :
    (n m : ℕ) (xs : List JournalRecord) (y : JournalRecord)
    → m ≡ n + length xs
    → RowsFrom n xs
    → y.seq ≡ m
    → RowsFrom n (xs ++ y ∷ [])
RowsFrom-snoc n m [] y e h k = (omega arith, tt)
RowsFrom-snoc n m (x ∷ xs) y e h k = (h.0, RowsFrom-snoc (suc n) m xs y (omega arith) h.1 k)

pub total_size-append :
    (xs ys : List QueuedRecord) → total_size (xs ++ ys) ≡ total_size xs + total_size ys
total_size-append [] ys = omega arith
total_size-append (x ∷ xs) ys = omega (arith, total_size-append xs ys)

abbrev pub row_seqs : List JournalRecord → List ℕ
row_seqs [] = []
row_seqs (r ∷ rs) = r.seq ∷ row_seqs rs

abbrev pub from : ℕ → ℕ → List ℕ
from n zero = []
from n (suc k) = n ∷ from (suc n) k

-- What holds of a stream that was opened behind the row `base`. The rows on disk are numbered with no
-- gap; the futures were resolved in the order of the numbers, up to the last durable one, which is on
-- disk; unless the stream is degraded and holds nothing more, the rows behind it are as many as were
-- written of the batch in flight. The rows in flight and in the queue follow the last durable one, the reservations are
-- what the batch in flight and the queue hold, and they keep within the bounds.
pub record IsValid (base : ℕ) (s : StreamState) : Type 0 where
  pub rows_numbered : RowsFrom (suc base) s.rows
  pub acknowledged : s.resolved ≡ from (suc base) (length s.resolved)
  pub durable_is_last : s.durable_seq ≡ base + length s.resolved
  pub durable_on_disk : s.durable_seq ≤ base + length s.rows
  pub on_disk :
      ((s.lifecycle ≡ degraded) × (s.reserved_frames ≡ 0))
      ⊎ (base + length s.rows ≡ s.durable_seq + s.unsettled)
  pub unsettled_few : s.unsettled ≤ length s.in_flight
  pub numbered : NumberedFrom (suc s.durable_seq) (s.in_flight ++ s.queue)
  pub next_behind :
      s.lifecycle ≡ open_stream → s.next_seq ≡ suc s.durable_seq + length (s.in_flight ++ s.queue)
  pub frames : s.reserved_frames ≡ length (s.in_flight ++ s.queue)
  pub bytes : s.queue_bytes ≡ total_size (s.in_flight ++ s.queue)
  pub frames_bounded : s.reserved_frames ≤ journal_queue_max_frames
  pub bytes_bounded : s.queue_bytes ≤ journal_queue_max_bytes

pub new_stream-IsValid : (stream_id : String) (base : ℕ) → IsValid base (new_stream stream_id base)
unfolding new_stream
new_stream-IsValid stream_id base = ground arith

-- The checks that `_publish_event_once` makes before it enters a record.
pub record Fits (item : QueuedRecord) (s : StreamState) : Type 0 where
  pub is_open : s.lifecycle ≡ open_stream
  pub has_number : item.record_of.seq ≡ s.next_seq
  pub frame_free : s.reserved_frames < journal_queue_max_frames
  pub bytes_free : s.queue_bytes + size_of item ≤ journal_queue_max_bytes

enqueue-list :
    (item : QueuedRecord) (s : StreamState)
    → (enqueue item s).in_flight ++ (enqueue item s).queue ≡ (s.in_flight ++ s.queue) ++ item ∷ []
unfolding enqueue
enqueue-list item s = sym (append_assoc s.in_flight s.queue (item ∷ []))

pub enqueue-IsValid :
    (base : ℕ) (item : QueuedRecord) (s : StreamState)
    → IsValid base s
    → Fits item s
    → IsValid base (enqueue item s)
enqueue-IsValid base item s v f =
    let all = s.in_flight ++ s.queue in
    let n = v.next_behind f.is_open in
    let one : NumberedFrom (suc s.durable_seq) (all ++ item ∷ []) =
      NumberedFrom-append (suc s.durable_seq) s.next_seq all (item ∷ []) n v.numbered
        (f.has_number, tt) in
    record {
      rows_numbered = unfold enqueue in v.rows_numbered;
      acknowledged = unfold enqueue in v.acknowledged;
      durable_is_last = unfold enqueue in v.durable_is_last;
      durable_on_disk = unfold enqueue in v.durable_on_disk;
      on_disk = elim v.on_disk [
        | inl h ↦ let clash = f.is_open in ground (arith, h, clash)
        | inr h ↦ inr (unfold enqueue in h)
      ];
      unsettled_few = unfold enqueue in v.unsettled_few;
      numbered = rw (enqueue-list item s) (unfold enqueue in one);
      next_behind = λ o.
          rw (enqueue-list item s)
            (unfold enqueue in omega (arith, length-append all (item ∷ []), n));
      frames =
          rw (enqueue-list item s)
            (unfold enqueue in omega (arith, length-append all (item ∷ []), v.frames));
      bytes =
          rw (enqueue-list item s)
            (unfold enqueue in omega (arith, total_size-append all (item ∷ []), v.bytes));
      frames_bounded = unfold enqueue in omega (arith, f.frame_free);
      bytes_bounded = unfold enqueue in omega (arith, f.bytes_free);
    }
