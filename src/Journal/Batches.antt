-- ===== src/Journal/Batches.antt =====
-- The batches of a stream's worker, from the queue to the disk (core/events/journal.py, `_worker_loop`).
use claudecode_lite_main.Prelude.{
  ℕ, ◌+◌, ◌≤◌, List, [], ◌∷◌, ◌++◌, length, length-append, ◌≡◌, refl, sym, ap, ◌∙◌, ◌⊎◌, inl, arith,
}
use mathlib.Core.List.{append_assoc}
use claudecode_lite_main.Journal.Stream.{
  journal_batch_max_frames, journal_batch_max_bytes, QueuedRecord, StreamState, size_of, total_size,
  fill_batch, take_batch, fail_stream,
}
use claudecode_lite_main.Journal.Invariant.{total_size-append, IsValid}

-- A batch is cut from the front of the queue.
fill_batch-append :
    (batch : List QueuedRecord) (frames bytes : ℕ) (queue : List QueuedRecord)
    → (fill_batch batch frames bytes queue).0 ++ (fill_batch batch frames bytes queue).1
      ≡ batch ++ queue
unfolding fill_batch
fill_batch-append batch frames bytes [] = refl
fill_batch-append batch frames bytes (item ∷ items) =
    let rest =
      fill_batch-append (batch ++ item ∷ []) (frames + 1) (bytes + size_of item) items
      ∙ append_assoc batch (item ∷ []) items in
    ground (arith, rest)

fill_batch_bounds :
    (batch : List QueuedRecord) (frames bytes : ℕ) (queue : List QueuedRecord)
    → frames ≡ length batch
    → bytes ≡ total_size batch
    → frames ≤ journal_batch_max_frames
    → (bytes ≤ journal_batch_max_bytes) ⊎ (frames ≡ 1)
    → (length (fill_batch batch frames bytes queue).0 ≤ journal_batch_max_frames)
      × ((total_size (fill_batch batch frames bytes queue).0 ≤ journal_batch_max_bytes)
          ⊎ (length (fill_batch batch frames bytes queue).0 ≡ 1))
unfolding fill_batch
fill_batch_bounds batch frames bytes [] f b m c = ground arith
fill_batch_bounds batch frames bytes (item ∷ items) f b m c =
    let l = length-append batch (item ∷ []) in
    let t = total_size-append batch (item ∷ []) in
    let rest =
      fill_batch_bounds (batch ++ item ∷ []) (frames + 1) (bytes + size_of item) items
        (omega (arith, l)) (omega (arith, t)) in
    ground (arith, rest)

take_batch-list :
    (s : StreamState)
    → s.in_flight ≡ []
    → (take_batch s).in_flight ++ (take_batch s).queue ≡ s.in_flight ++ s.queue
unfolding take_batch
take_batch-list s e =
    fill_batch-append [] 0 0 s.queue ∙ ap (λ (l : List QueuedRecord). l ++ s.queue) (sym e)

-- A batch holds at most 256 rows, and at most 256 KiB unless it is one row; it leaves the rest of the
-- queue in its order.
pub take_batch_bounds :
    (s : StreamState)
    → (length (take_batch s).in_flight ≤ journal_batch_max_frames)
      × ((total_size (take_batch s).in_flight ≤ journal_batch_max_bytes)
          ⊎ (length (take_batch s).in_flight ≡ 1))
      × ((take_batch s).in_flight ++ (take_batch s).queue ≡ s.queue)
unfolding take_batch
take_batch_bounds s =
    let (few, small) =
      fill_batch_bounds [] 0 0 s.queue refl refl (omega arith) (inl (omega arith)) in
    (few, small, fill_batch-append [] 0 0 s.queue)

none_flying :
    (s : StreamState) → s.in_flight ≡ [] → s.unsettled ≤ length s.in_flight → s.unsettled ≡ 0
none_flying s e h = ground (arith, rw e at h)

pub take_batch-IsValid :
    (base : ℕ) (s : StreamState) → s.in_flight ≡ [] → IsValid base s → IsValid base (take_batch s)
take_batch-IsValid base s e v =
    let same = take_batch-list s e in
    record {
      rows_numbered = unfold take_batch in v.rows_numbered;
      acknowledged = unfold take_batch in v.acknowledged;
      durable_is_last = unfold take_batch in v.durable_is_last;
      durable_on_disk = unfold take_batch in v.durable_on_disk;
      on_disk = unfold take_batch in v.on_disk;
      unsettled_few = unfold take_batch in omega (arith, none_flying s e v.unsettled_few);
      numbered = rw same (unfold take_batch in v.numbered);
      next_behind = rw same (unfold take_batch in v.next_behind);
      frames = rw same (unfold take_batch in v.frames);
      bytes = rw same (unfold take_batch in v.bytes);
      frames_bounded = unfold take_batch in v.frames_bounded;
      bytes_bounded = unfold take_batch in v.bytes_bounded;
    }

pub fail_stream-IsValid :
    (base : ℕ) (s : StreamState) → IsValid base s → IsValid base (fail_stream s)
unfolding fail_stream
fail_stream-IsValid base s v = record {
  rows_numbered = v.rows_numbered;
  acknowledged = v.acknowledged;
  durable_is_last = v.durable_is_last;
  durable_on_disk = v.durable_on_disk;
  on_disk = inl (refl, refl);
  unsettled_few = omega arith;
  numbered = tt;
  next_behind = λ o. cc;
  frames = refl;
  bytes = refl;
  frames_bounded = omega arith;
  bytes_bounded = omega arith;
}
