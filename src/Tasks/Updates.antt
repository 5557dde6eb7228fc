-- ===== src/Tasks/Updates.antt =====
-- What the task manager keeps (core/task/manager.py): ids are not given out twice, every dependency
-- names a task that exists, and a completed task blocks no other.
use claudecode_lite_main.Prelude.{
  ℕ, ◌≤◌, ◌<◌, String, List, [], ◌∷◌, ◌++◌, Option, none, some, Bool, true, false, not, ◌==◌, ◌≡◌,
  refl, keep, arith, if◌then◌else◌, Option-cases, inl, inr,
}
use claudecode_lite_main.Tasks.Model.{
  pending, Task, Content, task, Files, blocker_not_found, Result, ok, err, TaskManager, mem_nat,
  read, write, exists, max_id, open_dir, missing, clear_in, clear_dependency, create,
}

pub read-write :
    (i j : ℕ) (c : Content) (fs : Files)
    → read i (write j c fs) ≡ (if j == i then some c else read i fs)
unfolding read write
read-write i j c [] = refl
read-write i j c ((k, d) ∷ fs) = ground (arith, read-write i j c fs)

abbrev pub cleared : ℕ → String → Option Content → Option Content
cleared done now none = none
cleared done now (some c) = some (clear_in done now c)

pub read-clear_dependency :
    (i done : ℕ) (now : String) (fs : Files)
    → read i (clear_dependency done now fs) ≡ cleared done now (read i fs)
unfolding read clear_dependency
read-clear_dependency i done now [] = refl
read-clear_dependency i done now ((j, c) ∷ fs) = ground (arith, read-clear_dependency i done now fs)

pub mem-keep_other :
    (x d : ℕ) (xs : List ℕ)
    → mem_nat x (keep (λ y. not (y == d)) xs) ≡ (if x == d then false else mem_nat x xs)
mem-keep_other x d [] = ground arith
mem-keep_other x d (y ∷ ys) = ground (arith, mem-keep_other x d ys)

pub mem-keep :
    (test : ℕ → Bool) (x : ℕ) (xs : List ℕ) → mem_nat x (keep test xs) ≡ true → mem_nat x xs ≡ true
mem-keep test x [] h = h
mem-keep test x (y ∷ ys) h = ground (arith, mem-keep test x ys)

pub mem-append :
    (x : ℕ) (xs ys : List ℕ) → mem_nat x (xs ++ ys) ≡ (if mem_nat x xs then true else mem_nat x ys)
mem-append x [] ys = refl
mem-append x (y ∷ xs) ys = ground (arith, mem-append x xs ys)

pub missing-none :
    (is : List ℕ) (fs : Files) (x : ℕ)
    → missing is fs ≡ none
    → mem_nat x is ≡ true
    → exists x fs ≡ true
unfolding missing
missing-none [] fs x h m = cc
missing-none (i ∷ is) fs x h m = ground (arith, missing-none is fs x)

-- Every file's id lies below the next one.
pub record IsFresh (m : TaskManager) : Type 0 where
  pub below : (i : ℕ) (c : Content) → read i m.files ≡ some c → i < m.next_id

-- Every file is named after its task, and every dependency has a file.
pub record IsClosed (fs : Files) : Type 0 where
  pub named : (i : ℕ) (t : Task) → read i fs ≡ some (task t) → t.id ≡ i
  pub blockers :
      (i j : ℕ) (t : Task)
      → read i fs ≡ some (task t)
      → mem_nat j t.blocked_by ≡ true
      → exists j fs ≡ true

read-le-max_id : (i : ℕ) (c : Content) (fs : Files) → read i fs ≡ some c → i ≤ max_id fs
unfolding read max_id
read-le-max_id i c [] h = cc
read-le-max_id i c ((j, d) ∷ fs) h = ground (arith, read-le-max_id i c fs)

-- A manager that is opened on any directory gives out new ids only.
pub open_dir-IsFresh : (fs : Files) → IsFresh (open_dir fs)
unfolding open_dir
open_dir-IsFresh fs = record { below = λ i c h. omega (arith, read-le-max_id i c fs h) }

-- What `create` does: the first dependency with no file is an error that changes nothing; otherwise
-- the new task is pending, its id was in use by no file, its file holds it, and every other file
-- is as it was.
abbrev pub Created : List ℕ → TaskManager → Result Task × TaskManager → Type 0
Created blocked_by m (err e, m') =
    (m' ≡ m) × ((i : ℕ) × (e ≡ blocker_not_found i) × (exists i m.files ≡ false))
Created blocked_by m (ok t, m') =
    (t.status ≡ pending)
    × (t.blocked_by ≡ blocked_by)
    × (read t.id m.files ≡ none)
    × ((i : ℕ) → read i m'.files ≡ (if t.id == i then some (task t) else read i m.files))

missing-some : (is : List ℕ) (fs : Files) (i : ℕ) → missing is fs ≡ some i → exists i fs ≡ false
unfolding missing
missing-some [] fs i h = cc
missing-some (j ∷ is) fs i h = ground (arith, missing-some is fs i)

unread : (m : TaskManager) → IsFresh m → read m.next_id m.files ≡ none
unread m f = elim (Option-cases (read m.next_id m.files)) [
  | inl e ↦ e
  | inr (c, e) ↦ absurd (omega (arith, f.below m.next_id c e))
]

abbrev new_task : String → String → List ℕ → String → TaskManager → Task
new_task subject description blocked_by now m = record {
  id = m.next_id;
  subject = subject;
  description = description;
  status = pending;
  blocked_by = blocked_by;
  created_at = now;
  updated_at = now;
}

-- With fresh ids, a creation fails only on a dependency that has no file, and then changes nothing;
-- otherwise the new task is pending, its id was in use by no file, its file holds it, and every other
-- file is as it was.
pub create-Created :
    (subject description : String) (blocked_by : List ℕ) (now : String) (m : TaskManager)
    → IsFresh m
    → Created blocked_by m (create subject description blocked_by now m)
unfolding create
create-Created subject description blocked_by now m f =
    elim (Option-cases (missing blocked_by m.files)) [
      | inl e ↦
          rw (e, create)
            (
              refl,
              refl,
              unread m f,
              λ i.
                  read-write i m.next_id (task (new_task subject description blocked_by now m))
                    m.files,
            )
      | inr (i, e) ↦ rw (e, create) (refl, (i, refl, missing-some blocked_by m.files i e))
    ]

-- Creating a task keeps the ids fresh.
pub create-IsFresh :
    (subject description : String) (blocked_by : List ℕ) (now : String) (m : TaskManager)
    → IsFresh m
    → IsFresh (create subject description blocked_by now m).1
unfolding create
create-IsFresh subject description blocked_by now m f = record {
  below = λ i c h. ground (
    arith,
    f.below i c,
    read-write i m.next_id (task (new_task subject description blocked_by now m)) m.files,
  );
}

pub create-IsClosed :
    (subject description : String) (blocked_by : List ℕ) (now : String) (m : TaskManager)
    → IsClosed m.files
    → IsClosed (create subject description blocked_by now m).1.files
unfolding create
create-IsClosed subject description blocked_by now m c =
    let t = new_task subject description blocked_by now m in
    elim (Option-cases (missing blocked_by m.files)) [
      | inr (i, e) ↦ rw (e, create) c
      | inl e ↦
          rw (e, create)
            (record {
              named = λ i u h. ground (arith, read-write i m.next_id (task t) m.files, c.named i u);
              blockers = λ i j u h k. ground (
                arith,
                read-write i m.next_id (task t) m.files,
                read-write j m.next_id (task t) m.files,
                c.blockers i j u,
                missing-none blocked_by m.files j e,
              );
            })
    ]
