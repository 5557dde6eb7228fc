-- ===== src/Connection/Receipts.antt =====
-- What is to hold of a connection, and what can happen to it (core/transport/connection.py).
use claudecode_lite_main.Prelude.{
  ℕ, ◌+◌, ◌≤◌, List, [], ◌∷◌, ◌++◌, Option, none, some, Bool, true, false, length, ◌≡◌, refl, arith,
  if◌then◌else◌, not,
}
use claudecode_lite_main.Prelude.Int.{ℤ}
use claudecode_lite_main.Connection.Json.{Text, Json}
use claudecode_lite_main.Connection.Queues.{
  max_control_frames, max_control_bytes, max_event_frames, max_event_bytes, closed, OutboundFrame,
  ConnectionContext, bytes_of, initiate_close, is_open, enqueue, next_frame, write_done,
  write_failed, close_finish,
}

abbrev pub total_bytes : List OutboundFrame → ℕ
total_bytes [] = 0
total_bytes (f ∷ fs) = bytes_of f + total_bytes fs

pub total_bytes-append :
    (xs ys : List OutboundFrame) → total_bytes (xs ++ ys) ≡ total_bytes xs + total_bytes ys
total_bytes-append [] ys = omega arith
total_bytes-append (x ∷ xs) ys = omega (arith, total_bytes-append xs ys)

abbrev pub one : Option OutboundFrame → List OutboundFrame
one none = []
one (some f) = f ∷ []

-- The frames of one kind: control frames for `true`.
unfoldable pub of_kind : Bool → List OutboundFrame → List OutboundFrame
of_kind true [] = []
of_kind true (f ∷ fs) = let rest = of_kind true fs in if f.is_control then f ∷ rest else rest
of_kind false [] = []
of_kind false (f ∷ fs) = let rest = of_kind false fs in if f.is_control then rest else f ∷ rest

pub of_kind-append :
    (k : Bool) (xs ys : List OutboundFrame) → of_kind k (xs ++ ys) ≡ of_kind k xs ++ of_kind k ys
unfolding of_kind
of_kind-append true [] ys = refl
of_kind-append false [] ys = refl
of_kind-append true (x ∷ xs) ys = ground (arith, of_kind-append true xs ys)
of_kind-append false (x ∷ xs) ys = ground (arith, of_kind-append false xs ys)

abbrev pub AllKind : Bool → List OutboundFrame → Type 0
AllKind k [] = Unit
AllKind k (f ∷ fs) = (f.is_control ≡ k) × AllKind k fs

pub AllKind-snoc :
    (k : Bool) (fs : List OutboundFrame) (f : OutboundFrame)
    → AllKind k fs
    → f.is_control ≡ k
    → AllKind k (fs ++ f ∷ [])
AllKind-snoc k [] f h e = (e, tt)
AllKind-snoc k (g ∷ fs) f h e = (h.0, AllKind-snoc k fs f h.1 e)

pub of_kind-same : (k : Bool) (fs : List OutboundFrame) → AllKind k fs → of_kind k fs ≡ fs
unfolding of_kind
of_kind-same true [] h = refl
of_kind-same false [] h = refl
of_kind-same true (f ∷ fs) h = ground (arith, of_kind-same true fs)
of_kind-same false (f ∷ fs) h = ground (arith, of_kind-same false fs)

pub of_kind-other : (k : Bool) (fs : List OutboundFrame) → AllKind (not k) fs → of_kind k fs ≡ []
unfolding of_kind
of_kind-other true [] h = refl
of_kind-other false [] h = refl
of_kind-other true (f ∷ fs) h = ground (arith, of_kind-other true fs)
of_kind-other false (f ∷ fs) h = ground (arith, of_kind-other false fs)

abbrev pub queue_of : Bool → ConnectionContext → List OutboundFrame
queue_of true s = s.control
queue_of false s = s.events

-- Where the frames of one kind are, in the order in which they were accepted.
abbrev pub line : Bool → ConnectionContext → List OutboundFrame
line k s =
    of_kind k s.written ++ (of_kind k s.failed ++ (of_kind k (one s.current) ++ queue_of k s))

-- The counters are exact and the bounds are kept.
pub record IsBounded (s : ConnectionContext) : Type 0 where
  pub control_exact : s.control_bytes ≡ total_bytes s.control
  pub event_exact : s.event_bytes ≡ total_bytes s.events
  pub control_few : length s.control ≤ max_control_frames
  pub event_few : length s.events ≤ max_event_frames
  pub control_small : s.control_bytes ≤ max_control_bytes
  pub event_small : s.event_bytes ≤ max_event_bytes

-- Every accepted frame is in one place, and a closed connection has settled all of them.
pub record IsOrdered (s : ConnectionContext) : Type 0 where
  pub control_kind : AllKind true s.control
  pub event_kind : AllKind false s.events
  pub in_order : (k : Bool) → of_kind k s.accepted ≡ line k s
  pub nothing_failed : s.writer_running ≡ true → s.failed ≡ []
  pub nothing_in_hand : s.writer_running ≡ false → s.current ≡ none
  pub all_settled : s.state ≡ closed → (s.current ≡ none) × (s.control ≡ []) × (s.events ≡ [])
  pub close_known : is_open s ≡ false → s.close_started ≡ true

-- What can happen to a connection. The writer takes a frame only with none in hand, and the close task ends
-- only once it was started.
pub data Step : ConnectionContext → ConnectionContext → Type 0 where
  enqueues :
      {s : ConnectionContext} (int_text : ℤ → Text) (float_text : ℕ → Text) (is_control : Bool)
      (frame : Json)
      → Step s (enqueue int_text float_text is_control frame s).0
  takes :
      {s : ConnectionContext} → s.writer_running ≡ true → s.current ≡ none → Step s (next_frame s)
  writes : {s : ConnectionContext} → s.writer_running ≡ true → Step s (write_done s)
  fails : {s : ConnectionContext} → Step s (write_failed s)
  closes : {s : ConnectionContext} → Step s (initiate_close s)
  finishes : {s : ConnectionContext} → s.close_started ≡ true → Step s (close_finish s)

pub data Reach (s : ConnectionContext) : ConnectionContext → Type 0 where
  here : Reach s s
  next : {t u : ConnectionContext} → Reach s t → Step t u → Reach s u
