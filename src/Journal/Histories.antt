-- ===== src/Journal/Histories.antt =====
-- The life of a stream as a relation between states, and what holds in every state that it reaches
-- (core/events/journal.py).
use claudecode_lite_main.Prelude.{
  ℕ, zero, suc, ◌+◌, ◌-◌, String, List, [], ◌∷◌, ◌++◌, length, ◌≡◌, refl, sym, ap, ◌∙◌, inl, inr,
  arith,
}
use claudecode_lite_main.Journal.Stream.{
  degraded, JournalRecord, QueuedRecord, StreamState, append_rows, new_stream, enqueue, take_batch,
  commit_batch, fail_stream,
}
use claudecode_lite_main.Journal.Invariant.{
  RowsFrom, row_seqs, from, IsValid, new_stream-IsValid, Fits, enqueue-IsValid,
}
use claudecode_lite_main.Journal.Batches.{take_batch-IsValid, fail_stream-IsValid}
use claudecode_lite_main.Journal.Writes.{append_rows-IsValid, commit_batch-IsValid}

-- What can happen to a stream: a record that fits is entered, the idle worker takes a batch, rows of the
-- batch reach the disk, a batch that was written whole is settled, the stream fails, or an overflow
-- marks it degraded.
row_seqs-from : (n : ℕ) (rs : List JournalRecord) → RowsFrom n rs → row_seqs rs ≡ from n (length rs)
row_seqs-from n [] h = refl
row_seqs-from n (r ∷ rs) h = rw (h.0, row_seqs-from (suc n) rs h.1)

from-append : (n j k : ℕ) → from n (j + k) ≡ from n j ++ from (n + j) k
from-append n zero k =
    let same : n + 0 ≡ n = omega arith in let all : 0 + k ≡ k = omega arith in rw (same, all)
from-append n (suc j) k =
    let same : n + suc j ≡ suc n + j = omega arith in
    let all : suc j + k ≡ suc (j + k) = omega arith in rw (all, same, ← from-append (suc n) j k)

-- The receipts that were resolved are those of the first rows on disk.
resolved_first :
    (base : ℕ) (s : StreamState)
    → IsValid base s
    → (lost : List ℕ) × (row_seqs s.rows ≡ s.resolved ++ lost)
resolved_first base s v =
    let k = length s.rows - length s.resolved in
    let same : length s.rows ≡ length s.resolved + k =
      omega (arith, v.durable_on_disk, v.durable_is_last) in
    (
      from (suc base + length s.resolved) k,
      row_seqs-from (suc base) s.rows v.rows_numbered
          ∙ ap (λ n. from (suc base) n) same
          ∙ from-append (suc base) (length s.resolved) k
          ∙ ap (λ l. l ++ from (suc base + length s.resolved) k) (sym v.acknowledged),
    )

pub data Step : StreamState → StreamState → Type 0 where
  put : {s : StreamState} (item : QueuedRecord) → Fits item s → Step s (enqueue item s)
  take : {s : StreamState} → s.in_flight ≡ [] → Step s (take_batch s)
  write : {s : StreamState} (n : ℕ) → s.unsettled ≡ 0 → Step s (append_rows n s)
  commit : {s : StreamState} → s.unsettled ≡ length s.in_flight → Step s (commit_batch s)
  fail : {s : StreamState} → Step s (fail_stream s)
  degrade : {s : StreamState} → Step s (record s { lifecycle = degraded })

pub data Reach (s : StreamState) : StreamState → Type 0 where
  here : Reach s s
  next : {t u : StreamState} → Reach s t → Step t u → Reach s u

pub degrade-IsValid :
    (base : ℕ) (s : StreamState) → IsValid base s → IsValid base (record s { lifecycle = degraded })
degrade-IsValid base s v = record {
  rows_numbered = v.rows_numbered;
  acknowledged = v.acknowledged;
  durable_is_last = v.durable_is_last;
  durable_on_disk = v.durable_on_disk;
  on_disk = elim v.on_disk [ inl h ↦ inl (refl, h.1) | inr h ↦ inr h ];
  unsettled_few = v.unsettled_few;
  numbered = v.numbered;
  next_behind = λ o. cc;
  frames = v.frames;
  bytes = v.bytes;
  frames_bounded = v.frames_bounded;
  bytes_bounded = v.bytes_bounded;
}

Step-IsValid : (base : ℕ) {s t : StreamState} → Step s t → IsValid base s → IsValid base t
Step-IsValid base (put {s = s} item f) v = enqueue-IsValid base item s v f
Step-IsValid base (take {s = s} e) v = take_batch-IsValid base s e v
Step-IsValid base (write {s = s} n e) v = append_rows-IsValid base n s e v
Step-IsValid base (commit {s = s} e) v = commit_batch-IsValid base s e v
Step-IsValid base (fail {s = s}) v = fail_stream-IsValid base s v
Step-IsValid base (degrade {s = s}) v = degrade-IsValid base s v

Reach-IsValid : (base : ℕ) {s t : StreamState} → IsValid base s → Reach s t → IsValid base t
Reach-IsValid base v here = v
Reach-IsValid base v (next r st) = Step-IsValid base st (Reach-IsValid base v r)

-- Whatever happens to a stream that was opened behind row `base`, and also when its worker is cancelled
-- or fails in the middle of a write, the numbers of the rows on disk, which go up from `base + 1` with no
-- gap, begin with the numbers of the receipts that were resolved, in the order in which they were; unless the
-- stream is degraded and holds nothing more, the rows behind those are as many as were written of the
-- batch in flight; the records that wait have the numbers behind the last durable one; and the reservations
-- are exact and within their bounds.
pub stream-IsValid :
    (stream_id : String) (base : ℕ) {s : StreamState}
    → Reach (new_stream stream_id base) s
    → IsValid base s × ((lost : List ℕ) × (row_seqs s.rows ≡ s.resolved ++ lost))
stream-IsValid stream_id base r =
    let v = Reach-IsValid base (new_stream-IsValid stream_id base) r in (v, resolved_first base _ v)
