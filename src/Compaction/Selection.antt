-- ===== src/Compaction/Selection.antt =====
-- The prefix that a compaction takes (core/compact/compactor.py, `_select_admissible_prefix`).
use claudecode_lite_main.Prelude.{
  ℕ, zero, suc, ◌≤◌, ◌<◌, String, List, [], ◌∷◌, ◌++◌, Option, none, some, true, false, ◌&&◌, ltb,
  ◌==◌, not, any, mem, length, ◌≡◌, refl, sym, ap, ◌∙◌, inl, inr, arith, Bool-cases,
}
use claudecode_lite_main.Compaction.Prefix.{
  Message, is_empty, is_balanced_prefix, take, drop, TailPolicy, tail_floor, best_prefix, try_end,
  select_admissible_prefix,
}
use claudecode_lite_main.Compaction.Search.{IsChosen, best_prefix-IsChosen, best_prefix-refused}

take-drop {ℓ} : {A : Type ℓ} (n : ℕ) (xs : List A) → take n xs ++ drop n xs ≡ xs
take-drop zero xs = refl
take-drop (suc n) [] = refl
take-drop (suc n) (x ∷ xs) = ap (λ ys. x ∷ ys) (take-drop n xs)

length-take {ℓ} : {A : Type ℓ} (n : ℕ) (xs : List A) → n ≤ length xs → length (take n xs) ≡ n
length-take zero xs h = refl
length-take (suc n) [] h = ground arith
length-take (suc n) (x ∷ xs) h = ap suc (length-take n xs (omega (arith, h)))

module _ {A : Type 0} (estimate : List Message → ℕ) (admit : List Message → Option A)
    (protected_message_ids : List String) where
  -- What a prefix is to satisfy, with the messages behind it.
  pub record IsAdmissible (floor : ℕ) (candidate retained : List Message) (a : A) : Type 0 where
    pub not_empty : is_empty candidate ≡ false
    pub balanced : is_balanced_prefix candidate ≡ true
    pub tail_kept : floor ≤ estimate retained
    pub unprotected : any (λ m. mem m.message_id protected_message_ids) candidate ≡ false
    pub admitted : admit candidate ≡ some a

  try_end-IsAdmissible :
      (floor : ℕ) (messages : List Message) (end : ℕ) (a : A)
      → try_end estimate admit protected_message_ids floor messages end ≡ some a
      → IsAdmissible floor (take end messages) (drop end messages) a
  unfolding try_end
  try_end-IsAdmissible floor messages end a h = elim (Bool-cases (is_empty (take end messages))) [
    | inl e ↦ let absurd = simp (try_end, e) at h in cc
    | inr e ↦ elim (Bool-cases (is_balanced_prefix (take end messages))) [
      | inr b ↦ let absurd = simp (try_end, e, b) at h in cc
      | inl b ↦ elim (Bool-cases (not (floor == 0) && ltb (estimate (drop end messages)) floor)) [
        | inl t ↦ let absurd = simp (try_end, e, b, t) at h in cc
        | inr t ↦
            elim (Bool-cases
              (any (λ m. mem m.message_id protected_message_ids) (take end messages))) [
                | inl p ↦ let absurd = simp (try_end, e, b, t, p) at h in cc
                | inr p ↦ record {
                  not_empty = e;
                  balanced = b;
                  tail_kept = ground (arith, t);
                  unprotected = p;
                  admitted = simp (try_end, e, b, t, p) at h;
                }
              ]
      ]
    ]
  ]

  IsAdmissible-try_end :
      (floor : ℕ) (messages : List Message) (end : ℕ) (a : A)
      → IsAdmissible floor (take end messages) (drop end messages) a
      → try_end estimate admit protected_message_ids floor messages end ≡ some a
  unfolding try_end
  IsAdmissible-try_end floor messages end a v =
      let kept : not (floor == 0) && ltb (estimate (drop end messages)) floor ≡ false =
        ground (arith, v.tail_kept) in
      simp (try_end, v.not_empty, v.balanced, kept, v.unprotected) v.admitted

  none-IsAdmissible :
      (floor : ℕ) (messages : List Message) (end : ℕ) (a : A)
      → try_end estimate admit protected_message_ids floor messages end ≡ none
      → ¬ IsAdmissible floor (take end messages) (drop end messages) a
  none-IsAdmissible floor messages end a h v =
      let made = sym h ∙ IsAdmissible-try_end floor messages end a v in cc

  -- A prefix that is selected cuts the messages in two, has every tool call answered, holds no protected
  -- message, leaves a tail of the size asked for and is admitted by the gateway; of at most 64 messages, no
  -- longer prefix is so.
  pub select_sound :
      (policy : TailPolicy) (total : ℕ) (messages candidate retained : List Message) (a : A)
      → select_admissible_prefix estimate admit protected_message_ids policy total messages
        ≡ some (candidate, retained, a)
      → (candidate ++ retained ≡ messages)
        × IsAdmissible (tail_floor policy total) candidate retained a
        × (length messages ≤ 64
            → (end : ℕ) (b : A) → length candidate < end
            → end ≤ length messages
            → ¬ IsAdmissible (tail_floor policy total) (take end messages) (drop end messages) b)
  unfolding select_admissible_prefix
  select_sound policy total [] candidate retained a h = cc
  select_sound policy total (m ∷ ms) candidate retained a h =
      by_prefix (best_prefix tries (length messages)) refl h
    where
      messages : List Message
      messages = m ∷ ms

      tries : ℕ → Option A
      tries = try_end estimate admit protected_message_ids (tail_floor policy total) messages

      cut : Option (ℕ × A) → Option (List Message × List Message × A)
      cut none = none
      cut (some (end, b)) = some (take end messages, drop end messages, b)

      by_prefix :
          (o : Option (ℕ × A))
          → best_prefix tries (length messages) ≡ o
          → cut o ≡ some (candidate, retained, a)
          → (candidate ++ retained ≡ messages)
            × IsAdmissible (tail_floor policy total) candidate retained a
            × (length messages ≤ 64
                → (end : ℕ) (b : A) → length candidate < end
                → end ≤ length messages
                → ¬ IsAdmissible
                    (tail_floor policy total)
                    (take end messages)
                    (drop end messages)
                    b)
      by_prefix none q g = cc
      by_prefix (some (end, b)) q g =
          let chosen : IsChosen tries (length messages) end b =
            best_prefix-IsChosen tries (length messages) end b q in
          let c : take end messages ≡ candidate = grind (arith, g) in
          let r : drop end messages ≡ retained = grind (arith, g) in
          let same : b ≡ a = grind (arith, g) in
          rw (sym c, sym r, sym same)
            (
              take-drop end messages,
              try_end-IsAdmissible (tail_floor policy total) messages end b chosen.admitted,
              λ small e d l u.
                  none-IsAdmissible (tail_floor policy total) messages e d
                    (chosen.largest small e (rw (length-take end messages chosen.within) at l) u),
            )

  -- Of at most 64 messages, if no prefix is selected then none is to be had.
  pub select_none :
      (policy : TailPolicy) (total : ℕ) (messages : List Message)
      → length messages ≤ 64
      → select_admissible_prefix estimate admit protected_message_ids policy total messages ≡ none
      → (end : ℕ) (a : A) → 1 ≤ end
      → end ≤ length messages
      → ¬ IsAdmissible (tail_floor policy total) (take end messages) (drop end messages) a
  unfolding select_admissible_prefix
  select_none policy total [] small h end a l u = ground (arith, l, u)
  select_none policy total (m ∷ ms) small h end a l u =
      by_prefix (best_prefix tries (length messages)) refl h
    where
      messages : List Message
      messages = m ∷ ms

      tries : ℕ → Option A
      tries = try_end estimate admit protected_message_ids (tail_floor policy total) messages

      cut : Option (ℕ × A) → Option (List Message × List Message × A)
      cut none = none
      cut (some (e, b)) = some (take e messages, drop e messages, b)

      by_prefix :
          (o : Option (ℕ × A))
          → best_prefix tries (length messages) ≡ o
          → cut o ≡ none
          → ¬ IsAdmissible (tail_floor policy total) (take end messages) (drop end messages) a
      by_prefix (some (e, b)) q g = cc
      by_prefix none q g =
          none-IsAdmissible (tail_floor policy total) messages end a
            (best_prefix-refused tries (length messages) small q end l u)
