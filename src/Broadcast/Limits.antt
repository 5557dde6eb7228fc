-- ===== src/Broadcast/Limits.antt =====
-- The limits of the broadcaster: its subscriptions and their catch-up buffers
-- (core/transport/ipc_broadcaster.py).
use claudecode_lite_main.Prelude.{
  ℕ, ◌+◌, Option, none, ◌≤◌, String, str_eq, eq_iff, List, [], ◌∷◌, some, ◌≡◌, refl, sym, ap, ◌∙◌,
  inl, inr, arith, length, count, All, Bool-cases, Option-cases, ◌==◌,
}
use claudecode_lite_main.Journal.Stream.{JournalRecord}
use claudecode_lite_main.Broadcast.State.{
  live, Envelope, envelope_of, Wire, Subscription, Broadcaster, find, remove, put,
  terminate_subscription, terminate_owned,
}
use claudecode_lite_main.Broadcast.Lookup.{find-id}
use claudecode_lite_main.Broadcast.State.{
  catchup_buffer_max_frames, catchup_buffer_max_bytes, max_subscriptions_per_connection,
  max_total_subscriptions,
}

abbrev pub size_or_none : Option ℕ → ℕ
size_or_none none = 0
size_or_none (some size) = size

-- The sizes of the records of a buffer, as the frames in which they go out live.
abbrev pub encoded_bytes : (Envelope → Option ℕ) → String → List JournalRecord → ℕ
encoded_bytes frame_size sub_id [] = 0
encoded_bytes frame_size sub_id (r ∷ rs) =
    size_or_none (frame_size (envelope_of sub_id live r)) + encoded_bytes frame_size sub_id rs

-- A buffer of few frames, of few bytes, whose count of bytes is what its records take.
abbrev pub IsSmall : (Envelope → Option ℕ) → Subscription → Type 0
IsSmall frame_size s =
    (length s.catchup ≤ catchup_buffer_max_frames)
    × (encoded_bytes frame_size s.sub_id s.catchup ≤ catchup_buffer_max_bytes)
    × (s.catchup_bytes ≡ encoded_bytes frame_size s.sub_id s.catchup)

abbrev pub owned : ℕ → List Subscription → ℕ
owned context ss = count (λ s. s.context == context) ss

-- The limits on subscriptions, on those of one connection, and on each buffer.
pub record IsWithin (frame_size : Envelope → Option ℕ) (ss : List Subscription) : Type 0 where
  pub total : length ss ≤ max_total_subscriptions
  pub per_connection : (context : ℕ) → owned context ss ≤ max_subscriptions_per_connection
  pub small : All (IsSmall frame_size) ss

length-remove : (i : String) (ss : List Subscription) → length (remove i ss) ≤ length ss
unfolding remove
length-remove i [] = omega arith
length-remove i (s ∷ ss) = ground (arith, length-remove i ss)

owned-remove : (c : ℕ) (i : String) (ss : List Subscription) → owned c (remove i ss) ≤ owned c ss
unfolding remove
owned-remove c i [] = omega arith
owned-remove c i (s ∷ ss) = ground (arith, owned-remove c i ss)

module _ (frame_size : Envelope → Option ℕ) where
  All-remove :
      (i : String) (ss : List Subscription)
      → All (IsSmall frame_size) ss
      → All (IsSmall frame_size) (remove i ss)
  unfolding remove
  All-remove i [] h = tt
  All-remove i (s ∷ ss) (h, hs) = elim (Bool-cases (str_eq i s.sub_id)) [
    | inl e ↦ simp (remove, e) hs
    | inr e ↦ simp (remove, e) (h, All-remove i ss hs)
  ]

  remove-IsWithin :
      (i : String) (ss : List Subscription)
      → IsWithin frame_size ss
      → IsWithin frame_size (remove i ss)
  remove-IsWithin i ss v = record {
    total = omega (arith, length-remove i ss, v.total);
    per_connection = λ c. omega (arith, owned-remove c i ss, v.per_connection c);
    small = All-remove i ss v.small;
  }

length-put : (t : Subscription) (ss : List Subscription) → length (put t ss) ≡ length ss
unfolding put
length-put t [] = refl
length-put t (s ∷ ss) = ground (arith, length-put t ss)

-- A changed subscription stays on its connection.
owned-put :
    (c : ℕ) (s t : Subscription) (ss : List Subscription)
    → find t.sub_id ss ≡ some s
    → t.context ≡ s.context
    → owned c (put t ss) ≡ owned c ss
unfolding put find
owned-put c s t [] h e = refl
owned-put c s t (x ∷ ss) h e = elim (Bool-cases (str_eq t.sub_id x.sub_id)) [
  | inl f ↦
      let same : x ≡ s = grind (arith, simp (find, f) at h) in
      simp (put, f, e, sym (ap (λ y. y.context) same)) refl
  | inr f ↦ simp (put, f, owned-put c s t ss (simp (find, f) at h) e) refl
]

module _ (frame_size : Envelope → Option ℕ) where
  All-put :
      (t : Subscription) (ss : List Subscription)
      → IsSmall frame_size t
      → All (IsSmall frame_size) ss
      → All (IsSmall frame_size) (put t ss)
  unfolding put
  All-put t [] k h = tt
  All-put t (s ∷ ss) k (h, hs) = elim (Bool-cases (str_eq t.sub_id s.sub_id)) [
    | inl e ↦ simp (put, e) (k, hs)
    | inr e ↦ simp (put, e) (h, All-put t ss k hs)
  ]

  pub All-find :
      (i : String) (s : Subscription) (ss : List Subscription)
      → find i ss ≡ some s
      → All (IsSmall frame_size) ss
      → IsSmall frame_size s
  unfolding find
  All-find i s [] h k = cc
  All-find i s (x ∷ ss) h (k, ks) = elim (Bool-cases (str_eq i x.sub_id)) [
    | inl e ↦ let same : x ≡ s = grind (arith, simp (find, e) at h) in rw (sym same) k
    | inr e ↦ All-find i s ss (simp (find, e) at h) ks
  ]

  pub put-IsWithin :
      (s t : Subscription) (ss : List Subscription)
      → find t.sub_id ss ≡ some s
      → t.context ≡ s.context
      → IsSmall frame_size t
      → IsWithin frame_size ss
      → IsWithin frame_size (put t ss)
  put-IsWithin s t ss h e k v = record {
    total = rw (length-put t ss) v.total;
    per_connection = λ c. rw (owned-put c s t ss h e) (v.per_connection c);
    small = All-put t ss k v.small;
  }

abbrev pub Within : {Conn : Type 0} → Wire Conn → Broadcaster Conn → Type 0
Within wire b = IsWithin wire.frame_size b.subscriptions

-- The entry of a found subscription is found under its own id.
pub own_find :
    (i : String) (s : Subscription) (ss : List Subscription)
    → find i ss ≡ some s
    → find s.sub_id ss ≡ some s
own_find i s ss h =
    let same = (eq_iff i s.sub_id).0 (find-id i s ss h) in ap (λ j. find j ss) (sym same) ∙ h

module _ {Conn : Type 0} (wire : Wire Conn) where
  pub terminate-Within :
      (i : String) (b : Broadcaster Conn) → Within wire b → Within wire (terminate_subscription i b)
  unfolding terminate_subscription
  terminate-Within i b v = elim (Option-cases (find i b.subscriptions)) [
    | inl e ↦ simp (terminate_subscription, e) v
    | inr (s, e) ↦
        simp (terminate_subscription, e) (remove-IsWithin wire.frame_size i b.subscriptions v)
  ]

  pub terminate_owned-Within :
      (context : ℕ) (ss : List Subscription) (b : Broadcaster Conn)
      → Within wire b
      → Within wire (terminate_owned context ss b)
  unfolding terminate_owned
  terminate_owned-Within context [] b v = v
  terminate_owned-Within context (s ∷ ss) b v = elim (Bool-cases (s.context == context)) [
    | inl e ↦
        simp (terminate_owned, e)
          (terminate_owned-Within context ss (terminate_subscription s.sub_id b)
            (terminate-Within s.sub_id b v))
    | inr e ↦ simp (terminate_owned, e) (terminate_owned-Within context ss b v)
  ]
