-- ===== src/Tasks/Closed.antt =====
-- Every dependency in the directory names a task that exists, through all of `TaskManager`
-- (core/task/manager.py).
use claudecode_lite_main.Prelude.{
  ℕ, String, List, [], ◌∷◌, ◌++◌, Option, none, some, true, not, ◌==◌, ◌≡◌, refl, ◌∙◌, arith,
  if◌then◌else◌, Bool-cases, ◌⊎◌, inl, inr,
}
use claudecode_lite_main.Tasks.Model.{
  Status, Task, task, Files, TaskError, Result, ok, err, TaskManager, mem_nat, read, exists,
  missing, Change, with_added, edit, is_completed, commit, update,
}
use claudecode_lite_main.Tasks.Completion.{
  cleared_task, mem-clear_in, update_ok, update_refused, update_files, edit_id,
}
use claudecode_lite_main.Tasks.Updates.{cleared, mem-keep, mem-append, missing-none, IsClosed}

Result-cases :
    {A : Type 0} (r : Result A) → ((a : A) × (r ≡ ok a)) ⊎ ((e : TaskError) × (r ≡ err e))
Result-cases (ok a) = inl (a, refl)
Result-cases (err e) = inr (e, refl)

module _ (set_list : List ℕ → List ℕ)
    (items : (x : ℕ) (xs : List ℕ) → mem_nat x (set_list xs) ≡ mem_nat x xs) where
  with_added_mem :
      (k : ℕ) (added old : List ℕ)
      → mem_nat k (with_added set_list added old) ≡ true
      → (mem_nat k old ≡ true) ⊎ (mem_nat k added ≡ true)
  with_added_mem k [] old h = inl h
  with_added_mem k (i ∷ is) old h =
      ground (arith, items k (old ++ i ∷ is), mem-append k old (i ∷ is))

  edit_mem :
      (k : ℕ) (status : Option Status) (c : Change) (now : String) (t : Task)
      → mem_nat k (edit set_list status c now t).blocked_by ≡ true
      → (mem_nat k t.blocked_by ≡ true) ⊎ (mem_nat k c.add_blocked_by ≡ true)
  unfolding edit
  edit_mem k status c now t h = with_added_mem k c.add_blocked_by t.blocked_by (
      mem-keep (λ x. not (mem_nat x c.remove_blocked_by)) k
        (with_added set_list c.add_blocked_by t.blocked_by) h)

  module _ (i : ℕ) (c : Change) (now : String) (m : TaskManager) (status : Option Status) (t : Task)
      (closed : IsClosed m.files) (found : read i m.files ≡ some (task t))
      (free : missing c.add_blocked_by m.files ≡ none) where
    abbrev after : Files
    after = (commit set_list i status c now t m).1.files

    after-read :
        (j : ℕ)
        → read j after ≡ (
            if i == j
            then some (task (edit set_list status c now t))
            else if is_completed status
            then cleared i now (read j m.files)
            else read j m.files)
    after-read j =
        update_files set_list i c now m t status t found (closed.named i t found) j
          (edit_id set_list status c now t ∙ closed.named i t found)

    still_exists : (k : ℕ) → exists k m.files ≡ true → exists k after ≡ true
    still_exists k h = ground (arith, after-read k)

    -- A task of the new directory is the edited one, or an old one with no new dependency.
    abbrev Kept : ℕ → Task → Type 0
    Kept j v = (v.id ≡ j) × ((k : ℕ) → mem_nat k v.blocked_by ≡ true → exists k m.files ≡ true)

    edited-Kept : Kept i (edit set_list status c now t)
    edited-Kept = (
      edit_id set_list status c now t ∙ closed.named i t found,
      λ k b. elim (edit_mem k status c now t b) [
        | inl old ↦ closed.blockers i k t found old
        | inr new ↦ missing-none c.add_blocked_by m.files k free new
      ],
    )

    old-Kept : (j : ℕ) (v : Task) → read j m.files ≡ some (task v) → Kept j v
    old-Kept j v h = (closed.named j v h, λ k b. closed.blockers j k v h b)

    cleared-Kept : (j : ℕ) (v : Task) → cleared i now (read j m.files) ≡ some (task v) → Kept j v
    cleared-Kept j v h =
        let (w, old, step) = cleared_task i now (read j m.files) v h in
        (
          (mem-clear_in i 0 now w v step).0 ∙ closed.named j w old,
          λ k b. closed.blockers j k w old (ground (arith, mem-clear_in i k now w v step)),
        )

    after_task : (j : ℕ) (v : Task) → read j after ≡ some (task v) → Kept j v
    after_task j v h =
        let r = after-read j in
        elim (Bool-cases (i == j)) [
          | inl same ↦
              let e : edit set_list status c now t ≡ v = ground arith in
              let ij : i ≡ j = ground arith in rw (← e, ← ij) edited-Kept
          | inr other ↦ elim (Bool-cases (is_completed status)) [
            | inl done ↦ cleared-Kept j v (ground arith)
            | inr open_still ↦ old-Kept j v (ground arith)
          ]
        ]

    commit-IsClosed : IsClosed after
    commit-IsClosed = record {
      named = λ j v h. (after_task j v h).0;
      blockers = λ j k v h b. still_exists k ((after_task j v h).1 k b);
    }

  -- The directory stays closed under every `update`, provided that `list(set(xs))` holds the items
  -- of `xs` only.
  pub update-IsClosed :
      (i : ℕ) (c : Change) (now : String) (m : TaskManager)
      → IsClosed m.files
      → IsClosed (update set_list i c now m).1.files
  update-IsClosed i c now m closed = elim (Result-cases (update set_list i c now m).0) [
    | inr (e, h) ↦ rw (update_refused set_list i c now m h) closed
    | inl (u, h) ↦
        let (t, status, found, st, free, eu, e) = update_ok set_list i c now m u h in
        rw e (commit-IsClosed i c now m status t closed found free)
  ]
