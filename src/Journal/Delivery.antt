-- ===== src/Journal/Delivery.antt =====
-- An accepted event is entered on all of its streams and on no other, and every stream of the
-- coordinator stays valid (core/events/journal.py, `_publish_event_once`).
use claudecode_lite_main.Prelude.{
  ℕ, String, List, [], ◌∷◌, some, false, ◌≡◌, refl, sym, inl, inr, arith, lookup, insert,
  lookup-insert, mem, str_eq, eq_iff, Option-cases, Bool-cases,
}
use claudecode_lite_main.Journal.Stream.{Event, QueuedRecord, StreamState, enqueue}
use claudecode_lite_main.Journal.Invariant.{IsValid, Fits, enqueue-IsValid}
use claudecode_lite_main.Journal.Routing.{unknown_stream, ok, err, ◌>>=◌}
use claudecode_lite_main.Journal.Targets.{Distinct, chain-ok}
use claudecode_lite_main.Journal.Publish.{record_for, reserve, reserve_all, enter_all}

abbrev pub keys : List (String × QueuedRecord) → List String
keys [] = []
keys ((k, item) ∷ items) = k ∷ keys items

-- Each item is for a stream that is there and has room for it.
abbrev pub Ready : List (String × StreamState) → List (String × QueuedRecord) → Type 0
Ready streams [] = Unit
Ready streams ((k, item) ∷ items) =
    ((s : StreamState) × (lookup k streams ≡ some s) × Fits item s) × Ready streams items

-- Every registered stream is valid behind the row at which it was opened.
abbrev pub AllValid : (String → ℕ) → List (String × StreamState) → Type 0
AllValid base streams =
    (k : String) (s : StreamState) → lookup k streams ≡ some s → IsValid (base k) s

pub Ready-insert :
    (k : String) (s : StreamState) (streams : List (String × StreamState))
    (items : List (String × QueuedRecord))
    → mem k (keys items) ≡ false
    → Ready streams items
    → Ready (insert k s streams) items
unfolding mem
Ready-insert k s streams [] h r = tt
Ready-insert k s streams ((j, item) ∷ items) h r =
    let differs' : str_eq k j ≡ false = ground (arith, eq_iff j k, eq_iff k j) in
    let rest : mem k (keys items) ≡ false = ground arith in
    (
      (r.0.0, rw (lookup-insert k j s streams, differs') r.0.1, r.0.2),
      Ready-insert k s streams items rest r.1,
    )

pub insert-AllValid :
    (base : String → ℕ) (k : String) (s : StreamState) (streams : List (String × StreamState))
    → AllValid base streams
    → IsValid (base k) s
    → AllValid base (insert k s streams)
insert-AllValid base k s streams v vs j t h = elim (Bool-cases (str_eq k j)) [
  | inl e ↦
      let same : k ≡ j = ground (arith, eq_iff k j) in
      let found : s ≡ t = ground (arith, lookup-insert k j s streams, e) in
      rw (sym found, sym same) vs
  | inr e ↦
      let found : lookup j streams ≡ some t = ground (arith, lookup-insert k j s streams, e) in
      v j t found
]

module _ (line_size : String → String → ℕ → Event → ℕ) where
  pub enter_all-AllValid :
      (base : String → ℕ) (items : List (String × QueuedRecord))
      (streams : List (String × StreamState))
      → AllValid base streams
      → Distinct (keys items)
      → Ready streams items
      → AllValid base (enter_all line_size items streams)
  unfolding enter_all
  enter_all-AllValid base [] streams v d r = v
  enter_all-AllValid base ((k, item) ∷ items) streams v d r =
      let next = enqueue item r.0.0 in
      let valid = enqueue-IsValid (base k) item r.0.0 (v k r.0.0 r.0.1) r.0.2 in
      let opened : enter_all line_size ((k, item) ∷ items) streams
          ≡ enter_all line_size items (insert k next streams) =
        rw (r.0.1, enter_all) refl in
      rw opened (
        enter_all-AllValid base items (insert k next streams)
          (insert-AllValid base k next streams v valid) d.1
          (Ready-insert k next streams items d.0 r.1))

  pub reserve-Fits :
      (id : String) (e : Event) (ts : List String) (s : StreamState) (item : QueuedRecord)
      → reserve line_size id e ts s ≡ ok item
      → Fits item s × (item ≡ record_for line_size id e ts s)
  unfolding reserve
  reserve-Fits id e ts s item h =
      let same : record_for line_size id e ts s ≡ item = ground arith in
      (
        rw (sym same) (record {
          is_open = ground arith;
          has_number = refl;
          frame_free = ground arith;
          bytes_free = ground arith;
        }),
        sym same,
      )

  pub reserve_all-Ready :
      (id : String) (e : Event) (ts : List String) (streams : List (String × StreamState))
      (ks : List String) (items : List (String × QueuedRecord))
      → reserve_all line_size id e ts streams ks ≡ ok items
      → Ready streams items × (keys items ≡ ks)
  unfolding reserve_all
  reserve_all-Ready id e ts streams [] items h =
      let same : [] ≡ items = cc in rw (sym same) (tt, refl)
  reserve_all-Ready id e ts streams (k ∷ ks) items h = elim (Option-cases (lookup k streams)) [
    | inl none_there ↦
        let failed : err (unknown_stream k) ≡ ok items = rw (none_there, reserve_all) at h in cc
    | inr (s, there) ↦
        let chained : (reserve line_size id e ts s >>= (λ item.
          reserve_all line_size id e ts streams ks >>= (λ rest. ok ((k, item) ∷ rest))))
            ≡ ok items =
          rw (there, reserve_all) at h in
        let one = chain-ok (reserve line_size id e ts s) _ items chained in
        let more = chain-ok (reserve_all line_size id e ts streams ks) _ items one.2 in
        let same : (k, one.0) ∷ more.0 ≡ items = cc in
        let fits = reserve-Fits id e ts s one.0 one.1 in
        let rest = reserve_all-Ready id e ts streams ks more.0 more.1 in
        rw (sym same) (((s, there, fits.0), rest.0), rw rest.1 refl)
  ]
