-- ===== src/Broadcast/Others.antt =====
-- What a call leaves of a subscription that it is not about: the subscription goes away, or it and what was
-- sent to it are as before (core/transport/ipc_broadcaster.py).
use claudecode_lite_main.Prelude.{
  ℕ, ◌≤◌, String, str_eq, eq_iff, List, [], ◌∷◌, true, false, ◌≡◌, refl, sym, ◌∙◌, ◌⊎◌, inl, inr,
  arith, length, Bool-cases, Option-cases, List-cases, ◌==◌,
}
use claudecode_lite_main.Broadcast.State.{
  Subscription, Broadcaster, find, terminate_subscription, terminate_owned,
}
use claudecode_lite_main.Broadcast.Lookup.{
  only, sent_to, but_first, find_lem, only-remove_same, only-remove_other,
}

few_rest : (ss : List Subscription) → length ss ≤ 1 → but_first ss ≡ []
few_rest [] h = refl
few_rest (s ∷ []) h = refl
few_rest (s ∷ t ∷ ss) h = ground arith

module _ {Conn : Type 0} where
  -- At most one subscription has the id.
  abbrev pub Few : String → Broadcaster Conn → Type 0
  Few i b = length (only i b.subscriptions) ≤ 1

  abbrev pub Gone : String → Broadcaster Conn → Type 0
  Gone i b = only i b.subscriptions ≡ []

  pub record Same (i : String) (b c : Broadcaster Conn) : Type 0 where
    pub same_entry : only i c.subscriptions ≡ only i b.subscriptions
    pub same_sent : sent_to i c.sent ≡ sent_to i b.sent

  abbrev pub Outcome : String → Broadcaster Conn → Broadcaster Conn → Type 0
  Outcome i b c = Gone i c ⊎ Same i b c

  pub Same-refl : (i : String) (b : Broadcaster Conn) → Same i b b
  Same-refl i b = record { same_entry = refl; same_sent = refl }

  pub Outcome-trans :
      (i : String) (b c d : Broadcaster Conn) → Outcome i b c → Outcome i c d → Outcome i b d
  Outcome-trans i b c d p (inl g) = inl g
  Outcome-trans i b c d (inl g) (inr q) = inl (q.same_entry ∙ g)
  Outcome-trans i b c d (inr p) (inr q) =
      inr
        (record { same_entry = q.same_entry ∙ p.same_entry; same_sent = q.same_sent ∙ p.same_sent })

  pub Outcome-Few : (i : String) (b c : Broadcaster Conn) → Outcome i b c → Few i b → Few i c
  Outcome-Few i b c (inl g) h = rw g (omega arith)
  Outcome-Few i b c (inr s) h = rw s.same_entry h

  pub Outcome-Gone : (i : String) (b c : Broadcaster Conn) → Outcome i b c → Gone i b → Gone i c
  Outcome-Gone i b c (inl g) h = g
  Outcome-Gone i b c (inr s) h = s.same_entry ∙ h

  pub terminate-Gone :
      (i : String) (b : Broadcaster Conn) → Few i b → Gone i (terminate_subscription i b)
  unfolding terminate_subscription
  terminate-Gone i b h = elim (List-cases (only i b.subscriptions)) [
    | inl e ↦ simp (terminate_subscription, find_lem i b.subscriptions, e) refl
    | inr (s, ss, e) ↦
        simp (terminate_subscription, find_lem i b.subscriptions, e)
          (only-remove_same i b.subscriptions ∙ few_rest (only i b.subscriptions) h)
  ]

  terminate-Same :
      (i j : String) (b : Broadcaster Conn)
      → str_eq i j ≡ false
      → Same i b (terminate_subscription j b)
  unfolding terminate_subscription
  terminate-Same i j b h = elim (Option-cases (find j b.subscriptions)) [
    | inl e ↦ simp (terminate_subscription, e) (Same-refl i b)
    | inr (s, e) ↦
        simp (terminate_subscription, e)
          (record { same_entry = only-remove_other i j b.subscriptions h; same_sent = refl })
  ]

  pub terminate-Outcome :
      (i j : String) (b : Broadcaster Conn) → Few i b → Outcome i b (terminate_subscription j b)
  terminate-Outcome i j b h = elim (Bool-cases (str_eq i j)) [
    | inl e ↦ let same = (eq_iff i j).0 e in rw (sym same) (inl (terminate-Gone i b h))
    | inr e ↦ inr (terminate-Same i j b e)
  ]

  pub terminate_owned-Outcome :
      (i : String) (context : ℕ) (ss : List Subscription) (b : Broadcaster Conn)
      → Few i b
      → Outcome i b (terminate_owned context ss b)
  unfolding terminate_owned
  terminate_owned-Outcome i context [] b h = inr (Same-refl i b)
  terminate_owned-Outcome i context (s ∷ ss) b h = elim (Bool-cases (s.context == context)) [
    | inl e ↦
        let c = terminate_subscription s.sub_id b in
        let p = terminate-Outcome i s.sub_id b h in
        simp (terminate_owned, e)
          (Outcome-trans i b c (terminate_owned context ss c) p
            (terminate_owned-Outcome i context ss c (Outcome-Few i b c p h)))
    | inr e ↦ simp (terminate_owned, e) (terminate_owned-Outcome i context ss b h)
  ]

  -- A connection's subscription is gone when all of them are ended.
  pub terminate_owned-Gone :
      (s : Subscription) (ss : List Subscription) (b : Broadcaster Conn)
      → Few s.sub_id b
      → only s.sub_id ss ≡ s ∷ []
      → Gone s.sub_id (terminate_owned s.context ss b)
  unfolding terminate_owned
  terminate_owned-Gone s [] b h o = cc
  terminate_owned-Gone s (x ∷ ss) b h o = elim (Bool-cases (str_eq s.sub_id x.sub_id)) [
    | inl e ↦
        let x_is : x ≡ s = grind (arith, simp e at o) in
        let c = terminate_subscription x.sub_id b in
        let g : Gone s.sub_id c = rw x_is (terminate-Gone s.sub_id b h) in
        let own : (x.context == s.context) ≡ true = rw x_is (ground arith) in
        simp (terminate_owned, own)
          (Outcome-Gone s.sub_id c (terminate_owned s.context ss c)
            (terminate_owned-Outcome s.sub_id s.context ss c (rw g (omega arith))) g)
    | inr e ↦ elim (Bool-cases (x.context == s.context)) [
      | inl f ↦
          let c = terminate_subscription x.sub_id b in
          simp (terminate_owned, f)
            (terminate_owned-Gone s ss c
              (Outcome-Few s.sub_id b c (terminate-Outcome s.sub_id x.sub_id b h) h) (simp e at o))
      | inr f ↦ simp (terminate_owned, f) (terminate_owned-Gone s ss b h (simp e at o))
    ]
  ]
