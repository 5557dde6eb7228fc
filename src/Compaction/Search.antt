-- ===== src/Compaction/Search.antt =====
-- The binary search for a prefix, and the scan behind it (core/compact/compactor.py).
use claudecode_lite_main.Prelude.{
  ℕ, zero, suc, ◌+◌, ◌-◌, ◌/◌, ◌≤◌, ◌<◌, max, Option, none, some, true, false, ltb, leb, ◌==◌, ◌≡◌,
  refl, sym, ap, ◌∙◌, ◌⊎◌, inl, inr, arith, Bool-cases, Option-cases,
}
use claudecode_lite_main.Compaction.Prefix.{
  bits, Range, probe, search, scan, start, searched, scan_start, best_of, or_best, best_prefix,
}

module _ {A : Type 0} (try_end : ℕ → Option A) where
  -- What the search knows: its best end was admitted, and lies below the range that is left.
  pub record IsRange (n : ℕ) (s : Range A) : Type 0 where
    pub low_positive : 1 ≤ s.low
    pub inside : s.high ≤ n
    pub best_below : s.best_end < s.low
    pub best_inside : s.best_end ≤ n
    pub known :
        ((s.best_end ≡ 0) × (s.best_admission ≡ none))
        ⊎ ((1 ≤ s.best_end)
            × (s.best_admission ≡ try_end s.best_end)
            × ((a : A) × (s.best_admission ≡ some a)))

  probe-IsRange : (n : ℕ) (s : Range A) → s.low ≤ s.high → IsRange n s → IsRange n (probe try_end s)
  unfolding probe
  probe-IsRange n s l v = elim (Option-cases (try_end ((s.low + s.high) / 2))) [
    | inl e ↦
        simp (probe, e)
          (record {
            low_positive = v.low_positive;
            inside = ground (arith, v.inside, l);
            best_below = v.best_below;
            best_inside = v.best_inside;
            known = v.known;
          })
    | inr (a, e) ↦
        simp (probe, e)
          (record {
            low_positive = omega arith;
            inside = v.inside;
            best_below = omega arith;
            best_inside = ground (arith, v.inside, l);
            known = inr (ground (arith, v.low_positive, l), sym e, (a, refl));
          })
  ]

  search-IsRange : (n k : ℕ) (s : Range A) → IsRange n s → IsRange n (search try_end k s)
  unfolding search
  search-IsRange n zero s v = v
  search-IsRange n (suc k) s v = elim (Bool-cases (ltb s.high s.low)) [
    | inl e ↦ simp (search, e) v
    | inr e ↦
        simp (search, e)
          (search-IsRange n k (probe try_end s) (probe-IsRange n s (ground (arith, e)) v))
  ]

  -- A turn at least halves what is left.
  probe_halves :
      (s : Range A) (m : ℕ)
      → 1 ≤ s.low
      → s.low ≤ s.high
      → (s.high + 1) - s.low ≤ m
      → ((probe try_end s).high + 1) - (probe try_end s).low ≤ m / 2
  unfolding probe
  probe_halves s m p l h = elim (Option-cases (try_end ((s.low + s.high) / 2))) [
    | inl e ↦ simp (probe, e) (omega (arith, p, l, h))
    | inr (a, e) ↦ simp (probe, e) (omega (arith, p, l, h))
  ]

  probe_low : (s : Range A) → 1 ≤ s.low → 1 ≤ (probe try_end s).low
  unfolding probe
  probe_low s p = elim (Option-cases (try_end ((s.low + s.high) / 2))) [
    | inl e ↦ simp (probe, e) p
    | inr (a, e) ↦ simp (probe, e) (omega arith)
  ]

  search_stays : (k : ℕ) (s : Range A) → s.high < s.low → search try_end k s ≡ s
  unfolding search
  search_stays zero s h = refl
  search_stays (suc k) s h =
      let e : ltb s.high s.low ≡ true = ground (arith, h) in simp (search, e) refl

  stays_ended :
      (k : ℕ) (s : Range A) → s.high < s.low → (search try_end k s).high < (search try_end k s).low
  stays_ended k s h = rw (search_stays k s h) h

  -- As many turns as the size of the range has bits leave nothing of it.
  search_ends :
      (k m extra : ℕ) (s : Range A)
      → m ≤ k
      → 1 ≤ s.low
      → (s.high + 1) - s.low ≤ m
      → (search try_end (bits k m + extra) s).high < (search try_end (bits k m + extra) s).low
  unfolding search bits
  search_ends zero m extra s mk p h = stays_ended (bits zero m + extra) s (omega (arith, mk, h))
  search_ends (suc k) m extra s mk p h = elim (Bool-cases (m == 0)) [
    | inl e ↦ stays_ended (bits (suc k) m + extra) s (ground (arith, e, h))
    | inr e ↦
        let more : bits (suc k) m + extra ≡ suc (bits k (m / 2) + extra) =
          simp (bits, e) (omega arith) in
        elim (Bool-cases (ltb s.high s.low)) [
          | inl f ↦ stays_ended (bits (suc k) m + extra) s (ground (arith, f))
          | inr f ↦
              let l : s.low ≤ s.high = ground (arith, f) in
              simp (more, search, f)
                (search_ends k (m / 2) extra (probe try_end s) (ground (arith, mk, e))
                  (probe_low s p) (probe_halves s m p l h))
        ]
  ]

  start-IsRange : (n : ℕ) → IsRange n (start try_end n)
  start-IsRange n = record {
    low_positive = omega arith;
    inside = omega arith;
    best_below = omega arith;
    best_inside = omega arith;
    known = inl (refl, refl);
  }

  pub searched-IsRange : (n : ℕ) → IsRange n (searched try_end n)
  unfolding searched
  searched-IsRange n = search-IsRange n (max 1 (bits n n + 1)) (start try_end n) (start-IsRange n)

  -- The number of turns that the binary search is given, the bit length of the number of messages and one more,
  -- is enough: it ends with no end left to try.
  pub searched_ends : (n : ℕ) → (searched try_end n).high < (searched try_end n).low
  unfolding searched
  searched_ends n =
      let fuel : max 1 (bits n n + 1) ≡ bits n n + 1 = ground arith in
      rw fuel (search_ends n n 1 (start try_end n) (omega arith) (omega arith) (omega arith))

  -- What the scan finds is admitted, lies behind the best end, and nothing behind it is admitted; if it finds
  -- nothing, nothing in its range is admitted.
  scan-empty :
      (best top : ℕ)
      → scan try_end best top ≡ none
      → (e : ℕ) → best < e
      → e ≤ top
      → try_end e ≡ none
  unfolding scan
  scan-empty best zero h e l u = ground arith
  scan-empty best (suc t) h e l u = elim (Bool-cases (leb (suc t) best)) [
    | inl f ↦ ground (arith, f, l, u)
    | inr f ↦ elim (Option-cases (try_end (suc t))) [
      | inr (a, o) ↦ let absurd = simp (scan, f, o) at h in cc
      | inl o ↦ elim (Bool-cases (leb e t)) [
        | inl b ↦ scan-empty best t (simp (scan, f, o) at h) e l (ground (arith, b))
        | inr b ↦ let last : e ≡ suc t = ground (arith, b, u) in rw last o
      ]
    ]
  ]

  scan-found :
      (best top end : ℕ) (a : A)
      → scan try_end best top ≡ some (end, a)
      → (best < end)
        × (end ≤ top)
        × (try_end end ≡ some a)
        × ((e : ℕ) → end < e → e ≤ top → try_end e ≡ none)
  unfolding scan
  scan-found best zero end a h = cc
  scan-found best (suc t) end a h = elim (Bool-cases (leb (suc t) best)) [
    | inl f ↦ let absurd = simp (scan, f) at h in cc
    | inr f ↦ elim (Option-cases (try_end (suc t))) [
      | inr (b, o) ↦
          let found = simp (scan, f, o) at h in
          let same : suc t ≡ end = grind (arith, found) in
          let same_a : b ≡ a = grind (arith, found) in
          (
            ground (arith, f, same),
            omega (arith, same),
            rw (sym same, o, same_a) refl,
            λ e l u. ground (arith, same),
          )
      | inl o ↦
          let k = scan-found best t end a (simp (scan, f, o) at h) in
          (
            k.0,
            omega (arith, k.1),
            k.2,
            λ e l u. elim (Bool-cases (leb e t)) [
              | inl b ↦ k.3 e l (ground (arith, b))
              | inr b ↦ let last : e ≡ suc t = ground (arith, b, u) in rw last o
            ],
          )
    ]
  ]

  or_best-empty : (s : Range A) → s.best_admission ≡ none → or_best try_end s none ≡ none
  or_best-empty s m = ap (best_of try_end s.best_end) m

  or_best-known :
      (s : Range A) (a : A)
      → 1 ≤ s.best_end
      → s.best_admission ≡ some a
      → or_best try_end s none ≡ some (s.best_end, a)
  or_best-known s a p m =
      let positive : leb s.best_end 0 ≡ false = ground (arith, p) in
      ap (best_of try_end s.best_end) m ∙ simp positive refl

  -- The end that is chosen.
  pub record IsChosen (n end : ℕ) (a : A) : Type 0 where
    pub positive : 1 ≤ end
    pub within : end ≤ n
    pub admitted : try_end end ≡ some a
    pub largest : n ≤ 64 → (e : ℕ) → end < e → e ≤ n → try_end e ≡ none

  pub best_prefix-IsChosen :
      (n end : ℕ) (a : A) → best_prefix try_end n ≡ some (end, a) → IsChosen n end a
  unfolding best_prefix
  best_prefix-IsChosen n end a h = by_scan (scan try_end s.best_end (scan_start try_end n s)) refl h
    where
      s : Range A
      s = searched try_end n

      v : IsRange n s
      v = searched-IsRange n

      by_scan :
          (o : Option (ℕ × A))
          → scan try_end s.best_end (scan_start try_end n s) ≡ o
          → or_best try_end s o ≡ some (end, a)
          → IsChosen n end a
      by_scan (some (e, b)) q g =
          let same : e ≡ end = grind (arith, g) in
          let same_a : b ≡ a = grind (arith, g) in
          let k = scan-found s.best_end (scan_start try_end n s) e b q in
          let chosen : IsChosen n e b = record {
            positive = omega (arith, k.0);
            within = omega (arith, k.1);
            admitted = k.2;
            largest = λ small x l u. k.3 x l (omega (arith, small, u));
          } in
          rw (sym same, sym same_a) chosen
      by_scan none q g = elim v.known [
        | inl (z, m) ↦ let absurd = sym g ∙ or_best-empty s m in cc
        | inr (p, k, (b, m)) ↦
            let found = sym (or_best-known s b p m) ∙ g in
            let same : s.best_end ≡ end = grind (arith, found) in
            let same_a : b ≡ a = grind (arith, found) in
            let chosen : IsChosen n s.best_end b = record {
              positive = p;
              within = v.best_inside;
              admitted = sym k ∙ m;
              largest = λ small x l u.
                  scan-empty s.best_end (scan_start try_end n s) q x l (omega (arith, small, u));
            } in
            rw (sym same, sym same_a) chosen
      ]

  pub best_prefix-refused :
      (n : ℕ) → n ≤ 64 → best_prefix try_end n ≡ none → (e : ℕ) → 1 ≤ e → e ≤ n → try_end e ≡ none
  unfolding best_prefix
  best_prefix-refused n small h e l u =
      by_scan (scan try_end s.best_end (scan_start try_end n s)) refl h
    where
      s : Range A
      s = searched try_end n

      by_scan :
          (o : Option (ℕ × A))
          → scan try_end s.best_end (scan_start try_end n s) ≡ o
          → or_best try_end s o ≡ none
          → try_end e ≡ none
      by_scan (some x) q g = cc
      by_scan none q g = elim ((searched-IsRange n).known) [
        | inl (z, m) ↦
            scan-empty s.best_end (scan_start try_end n s) q e (omega (arith, z, l))
              (omega (arith, small, u))
        | inr (p, k, (b, m)) ↦ let absurd = sym g ∙ or_best-known s b p m in cc
      ]
