-- ===== src/Broadcast/Window.antt =====
-- Which durable events are new to the global subscribers (core/transport/ipc_broadcaster.py,
-- `_remember_global_event`): a set and a queue stand for one window of ids.
use claudecode_lite_main.Prelude.{
  ℕ, ◌+◌, ◌≤◌, String, str_eq, eq_iff, eq_refl, List, [], ◌∷◌, ◌++◌, Bool, true, false, not, keep,
  any, ltb, length, length-append, if◌then◌else◌, ◌≡◌, refl, arith, inl, inr, Bool-cases,
}
use claudecode_lite_main.Broadcast.State.{
  global_event_dedup_limit, Broadcaster, new_broadcaster, expire, remember_global_event,
}

abbrev pub in_window : String → List String → Bool
in_window e ids = any (λ x. str_eq x e) ids

abbrev pub without_oldest : List String → List String
without_oldest [] = []
without_oldest (x ∷ xs) = xs

-- The window as one list, the newest id last.
abbrev pub window_after : String → List String → List String
window_after e window =
    let longer = window ++ e ∷ [] in
    let moved = without_oldest longer in
    let wider = if ltb global_event_dedup_limit (length longer) then moved else longer in
    if in_window e window then window else wider

abbrev pub Apart : List String → Type 0
Apart [] = Unit
Apart (x ∷ xs) = (in_window x xs ≡ false) × Apart xs

in_window-append :
    (e : String) (xs : List String) (y : String)
    → in_window e (xs ++ y ∷ []) ≡ (if in_window e xs then true else str_eq y e)
in_window-append e [] y = ground arith
in_window-append e (x ∷ xs) y = ground (arith, in_window-append e xs y)

Apart-append :
    (xs : List String) (e : String) → Apart xs → in_window e xs ≡ false → Apart (xs ++ e ∷ [])
Apart-append [] e a n = (refl, tt)
Apart-append (x ∷ xs) e (h, a) n =
    let apart : str_eq x e ≡ false = ground (arith, n) in
    let apart' : str_eq e x ≡ false = ground (arith, apart, eq_iff e x, eq_iff x e) in
    (simp (in_window-append x xs e, h, apart') refl, Apart-append xs e a (ground (arith, n, apart)))

keep-others :
    (e : String) (xs : List String) → in_window e xs ≡ false → keep (λ x. not (str_eq x e)) xs ≡ xs
keep-others e [] h = refl
keep-others e (x ∷ xs) h = ground (arith, h, keep-others e xs)

expire_lem :
    (x : String) (xs : List String) → in_window x xs ≡ false → expire (x ∷ xs) (x ∷ xs) ≡ (xs, xs)
expire_lem x xs h = simp (eq_refl x, keep-others x xs h) refl

expire-window :
    (xs : List String) → Apart xs → expire xs xs ≡ (without_oldest xs, without_oldest xs)
expire-window [] a = refl
expire-window (x ∷ xs) (h, a) = expire_lem x xs h

Apart-without_oldest : (xs : List String) → Apart xs → Apart (without_oldest xs)
Apart-without_oldest [] a = tt
Apart-without_oldest (x ∷ xs) (h, a) = a

length-without_oldest :
    (xs : List String) (n : ℕ) → length xs ≤ n + 1 → length (without_oldest xs) ≤ n
length-without_oldest [] n h = omega arith
length-without_oldest (x ∷ xs) n h = omega (arith, h)

abbrev pub window_of : List String → List String → List String
window_of [] window = window
window_of (e ∷ es) window = window_of es (window_after e window)

module _ {Conn : Type 0} where
  -- The set and the queue of a broadcaster hold one window.
  pub record IsWindow (window : List String) (b : Broadcaster Conn) : Type 0 where
    pub as_order : b.global_event_order ≡ window
    pub as_set : b.global_event_ids ≡ window
    pub apart : Apart window
    pub short : length window ≤ global_event_dedup_limit

  -- Remembering an event refines the window: the answer is whether the id is not in it, and the set and the
  -- queue hold the window that has moved on, of at most 16384 ids, each once.
  remember_global_event-IsWindow :
      (window : List String) (e : String) (b : Broadcaster Conn)
      → IsWindow window b
      → ((remember_global_event e b).1 ≡ not (in_window e window))
        × IsWindow (window_after e window) (remember_global_event e b).0
  unfolding remember_global_event
  remember_global_event-IsWindow window e b v = elim (Bool-cases (in_window e window)) [
    | inl h ↦ simp (remember_global_event, v.as_set, h) (refl, v)
    | inr h ↦
        let longer = window ++ e ∷ [] in
        let apart = Apart-append window e v.apart h in
        let size = length-append window (e ∷ []) in
        elim (Bool-cases (ltb global_event_dedup_limit (length (window ++ e ∷ [])))) [
          | inl l ↦
              simp
                (
                  remember_global_event,
                  v.as_set,
                  v.as_order,
                  h,
                  l,
                  expire-window (window ++ e ∷ []) apart,
                )
                (
                  refl,
                  record {
                    as_order = refl;
                    as_set = refl;
                    apart = Apart-without_oldest longer apart;
                    short =
                        length-without_oldest longer global_event_dedup_limit
                          (omega (arith, size, v.short));
                  },
                )
          | inr l ↦
              simp (remember_global_event, v.as_set, v.as_order, h, l)
                (
                  refl,
                  record {
                    as_order = refl;
                    as_set = refl;
                    apart = apart;
                    short = ground (arith, l);
                  },
                )
        ]
  ]

  new_broadcaster-IsWindow : (connections : ℕ → Conn) → IsWindow [] (new_broadcaster connections)
  unfolding new_broadcaster
  new_broadcaster-IsWindow connections = record {
    as_order = refl;
    as_set = refl;
    apart = tt;
    short = omega arith;
  }

  abbrev pub remembered : List String → Broadcaster Conn → Broadcaster Conn
  remembered [] b = b
  remembered (e ∷ es) b = remembered es (remember_global_event e b).0

  remembered-IsWindow :
      (es window : List String) (b : Broadcaster Conn)
      → IsWindow window b
      → IsWindow (window_of es window) (remembered es b)
  remembered-IsWindow [] window b v = v
  remembered-IsWindow (e ∷ es) window b v =
      remembered-IsWindow es (window_after e window) (remember_global_event e b).0
        (remember_global_event-IsWindow window e b v).1

  -- The set and the queue of event ids refine one window of at most 16384 ids, each once, the oldest of which is
  -- dropped: after any durable events they hold that window, and the next event is new just when its id is not
  -- in it.
  pub dedup_refined :
      (connections : ℕ → Conn) (es : List String) (e : String)
      → IsWindow (window_of es []) (remembered es (new_broadcaster connections))
        × ((remember_global_event e (remembered es (new_broadcaster connections))).1
            ≡ not (in_window e (window_of es [])))
  dedup_refined connections es e =
      let v =
        remembered-IsWindow es [] (new_broadcaster connections)
          (new_broadcaster-IsWindow connections) in
      (
        v,
        (remember_global_event-IsWindow (window_of es []) e
            (remembered es (new_broadcaster connections)) v).0,
      )
