-- ===== src/Permissions/Saved.antt =====
-- Texts, their lines and their white space (core/permissions/storage.py).
use mathlib.Core.List.{append_assoc, append-nil}
use claudecode_lite_main.Prelude.{
  ℕ, List, [], ◌∷◌, ◌++◌, Bool, true, false, ◌||◌, ◌==◌, any, All, ◌≡◌, refl, sym, ap, ◌∙◌, inl,
  inr, arith, Bool-cases,
}
use claudecode_lite_main.Permissions.Storage.{
  Text, text_eq, is_break, rstrip, lines_from, splitlines, partition, joined,
}

pub text_eq_refl : (t : Text) → text_eq t t ≡ true
text_eq_refl [] = refl
text_eq_refl (c ∷ cs) = ground (arith, text_eq_refl cs)

pub text_eq_comm : (s t : Text) → text_eq s t ≡ text_eq t s
text_eq_comm [] [] = refl
text_eq_comm [] (d ∷ ds) = refl
text_eq_comm (c ∷ cs) [] = refl
text_eq_comm (c ∷ cs) (d ∷ ds) = ground (arith, text_eq_comm cs ds)

pub text_eq_eq : (s t : Text) → text_eq s t ≡ true → s ≡ t
text_eq_eq [] [] h = refl
text_eq_eq [] (d ∷ ds) h = cc
text_eq_eq (c ∷ cs) [] h = cc
text_eq_eq (c ∷ cs) (d ∷ ds) h = ground (arith, text_eq_eq cs ds, h)

-- Lines.

lines_from-line :
    (pre line rest : Text)
    → any is_break line ≡ false
    → lines_from false pre (line ++ 10 ∷ rest) ≡ (pre ++ line) ∷ lines_from false [] rest
unfolding lines_from is_break
lines_from-line pre [] rest h = ap (λ l. l ∷ lines_from false [] rest) (sym (append-nil pre))
lines_from-line pre (c ∷ cs) rest h = elim (Bool-cases (is_break c)) [
  | inl e ↦ let absurd = simp e at h in cc
  | inr e ↦
      simp (lines_from, e)
        (lines_from-line (pre ++ c ∷ []) cs rest (simp e at h)
          ∙ ap (λ l. l ∷ lines_from false [] rest) (append_assoc pre (c ∷ []) cs))
]

abbrev pub Unbroken : Text → Type 0
Unbroken line = any is_break line ≡ false

pub splitlines-joined : (lines : List Text) → All Unbroken lines → splitlines (joined lines) ≡ lines
unfolding splitlines lines_from
splitlines-joined [] h = refl
splitlines-joined (line ∷ lines) (h, hs) =
    lines_from-line [] line (joined lines) h ∙ ap (λ ls. line ∷ ls) (splitlines-joined lines hs)

-- White space at the ends, and the separator.

pub rstrip-append :
    (test : ℕ → Bool) (xs ys : Text) (d : ℕ) (ds : Text)
    → rstrip test ys ≡ d ∷ ds
    → rstrip test (xs ++ ys) ≡ xs ++ d ∷ ds
rstrip-append test [] ys d ds h = h
rstrip-append test (x ∷ []) ys d ds h = rw h refl
rstrip-append test (x ∷ y ∷ xs) ys d ds h = rw (rstrip-append test (y ∷ xs) ys d ds h) refl

pub rstrip-snoc :
    (test : ℕ → Bool) (xs : Text) (d : ℕ)
    → test d ≡ true
    → rstrip test (xs ++ d ∷ []) ≡ rstrip test xs
rstrip-snoc test [] d h = rw h refl
rstrip-snoc test (x ∷ xs) d h = rw (rstrip-snoc test xs d h) refl

pub any-append : (test : ℕ → Bool) (xs ys : Text) → any test (xs ++ ys) ≡ any test xs || any test ys
any-append test [] ys = refl
any-append test (x ∷ xs) ys = ground (arith, any-append test xs ys)

pub partition-append :
    (xs ys : Text)
    → any (λ c. c == 61) xs ≡ false
    → partition (xs ++ ys) ≡ (xs ++ (partition ys).0, (partition ys).1)
partition-append [] ys h = refl
partition-append (x ∷ xs) ys h = elim (Bool-cases (x == 61)) [
  | inl e ↦ let absurd = simp e at h in cc
  | inr e ↦ simp (e, partition-append xs ys (simp e at h)) refl
]
