-- ===== src/Broadcast/Lookup.antt =====
-- The subscriptions and the sent envelopes of one id (core/transport/ipc_broadcaster.py).
use claudecode_lite_main.Prelude.{
  String, str_eq, eq_iff, eq_refl, List, [], ◌∷◌, ◌++◌, Option, none, some, Bool, true, false, ◌≡◌,
  refl, sym, inl, inr, arith, keep, Bool-cases,
}
use claudecode_lite_main.Broadcast.State.{Envelope, Subscription, find, remove, put}

abbrev pub only : String → List Subscription → List Subscription
only i ss = keep (λ s. str_eq i s.sub_id) ss

abbrev pub sent_to : String → List Envelope → List Envelope
sent_to i es = keep (λ e. str_eq i e.subscription_id) es

abbrev pub first : List Subscription → Option Subscription
first [] = none
first (s ∷ ss) = some s

abbrev pub but_first : List Subscription → List Subscription
but_first [] = []
but_first (s ∷ ss) = ss

abbrev pub with_first : Subscription → List Subscription → List Subscription
with_first t [] = []
with_first t (s ∷ ss) = t ∷ ss

pub keep-append {ℓ} :
    {A : Type ℓ} (test : A → Bool) (xs ys : List A)
    → keep test (xs ++ ys) ≡ keep test xs ++ keep test ys
keep-append test [] ys = refl
keep-append test (x ∷ xs) ys = ground (arith, keep-append test xs ys)

pub str_eq-apart : (i j k : String) → str_eq i j ≡ false → str_eq j k ≡ true → str_eq i k ≡ false
str_eq-apart i j k h e = rw (sym ((eq_iff j k).0 e)) h

pub find_lem : (i : String) (ss : List Subscription) → find i ss ≡ first (only i ss)
unfolding find
find_lem i [] = refl
find_lem i (s ∷ ss) = elim (Bool-cases (str_eq i s.sub_id)) [
  | inl e ↦ simp (find, e) refl
  | inr e ↦ simp (find, e) (find_lem i ss)
]

pub only-remove_same :
    (i : String) (ss : List Subscription) → only i (remove i ss) ≡ but_first (only i ss)
unfolding remove
only-remove_same i [] = refl
only-remove_same i (s ∷ ss) = elim (Bool-cases (str_eq i s.sub_id)) [
  | inl e ↦ simp (remove, e) refl
  | inr e ↦ simp (remove, e) (only-remove_same i ss)
]

pub only-remove_other :
    (i j : String) (ss : List Subscription) → str_eq i j ≡ false → only i (remove j ss) ≡ only i ss
unfolding remove
only-remove_other i j [] h = refl
only-remove_other i j (s ∷ ss) h = elim (Bool-cases (str_eq j s.sub_id)) [
  | inl e ↦ simp (remove, e, str_eq-apart i j s.sub_id h e) refl
  | inr e ↦ elim (Bool-cases (str_eq i s.sub_id)) [
    | inl f ↦ simp (remove, e, f, only-remove_other i j ss h) refl
    | inr f ↦ simp (remove, e, f) (only-remove_other i j ss h)
  ]
]

pub only-put_same :
    (t : Subscription) (ss : List Subscription)
    → only t.sub_id (put t ss) ≡ with_first t (only t.sub_id ss)
unfolding put
only-put_same t [] = refl
only-put_same t (s ∷ ss) = elim (Bool-cases (str_eq t.sub_id s.sub_id)) [
  | inl e ↦ simp (put, e, eq_refl t.sub_id) refl
  | inr e ↦ simp (put, e) (only-put_same t ss)
]

pub only-put_other :
    (i : String) (t : Subscription) (ss : List Subscription)
    → str_eq i t.sub_id ≡ false
    → only i (put t ss) ≡ only i ss
unfolding put
only-put_other i t [] h = refl
only-put_other i t (s ∷ ss) h = elim (Bool-cases (str_eq t.sub_id s.sub_id)) [
  | inl e ↦ simp (put, e, h, str_eq-apart i t.sub_id s.sub_id h e) refl
  | inr e ↦ elim (Bool-cases (str_eq i s.sub_id)) [
    | inl f ↦ simp (put, e, f, only-put_other i t ss h) refl
    | inr f ↦ simp (put, e, f) (only-put_other i t ss h)
  ]
]

-- Every subscription under an id has that id.
pub only-id :
    (i : String) (s : Subscription) (rest ss : List Subscription)
    → only i ss ≡ s ∷ rest
    → str_eq i s.sub_id ≡ true
only-id i s rest [] h = cc
only-id i s rest (x ∷ ss) h = elim (Bool-cases (str_eq i x.sub_id)) [
  | inl e ↦ let same : x ≡ s = grind (arith, simp e at h) in rw (sym same) e
  | inr e ↦ only-id i s rest ss (simp e at h)
]

pub find-id :
    (i : String) (s : Subscription) (ss : List Subscription)
    → find i ss ≡ some s
    → str_eq i s.sub_id ≡ true
unfolding find
find-id i s [] h = cc
find-id i s (x ∷ ss) h = elim (Bool-cases (str_eq i x.sub_id)) [
  | inl e ↦ let same : x ≡ s = grind (arith, simp (find, e) at h) in rw (sym same) e
  | inr e ↦ find-id i s ss (simp (find, e) at h)
]
