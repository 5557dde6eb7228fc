-- ===== src/Tasks/Completion.antt =====
-- `TaskManager.update` (core/task/manager.py): what a change writes, what a refusal leaves alone, and
-- what completing a task does to the tasks that waited for it.
use claudecode_lite_main.Prelude.{
  ℕ, String, List, Option, none, some, false, ◌==◌, ◌≡◌, refl, ◌∙◌, ◌≢◌, arith, if◌then◌else◌,
}
use claudecode_lite_main.Tasks.Model.{
  Status, completed, known, Task, Content, task, broken, Files, TaskError, ok, err, TaskManager,
  mem_nat, read, load, save, missing, clear_in, clear_dependency, Change, edit, is_completed,
  commit, checked_status, update,
}
use claudecode_lite_main.Tasks.Updates.{
  cleared, read-write, read-clear_dependency, mem-keep_other, IsClosed,
}

-- Clearing a dependency takes out that id and no other.
pub mem-clear_in :
    (done j : ℕ) (now : String) (t u : Task)
    → clear_in done now (task t) ≡ task u
    → (u.id ≡ t.id)
      × (mem_nat j u.blocked_by ≡ (if j == done then false else mem_nat j t.blocked_by))
unfolding clear_in
mem-clear_in done j now t u h = ground (arith, mem-keep_other j done t.blocked_by)

pub cleared_task :
    (done : ℕ) (now : String) (o : Option Content) (v : Task)
    → cleared done now o ≡ some (task v)
    → (w : Task) × (o ≡ some (task w)) × (clear_in done now (task w) ≡ task v)
cleared_task done now none v h = cc
cleared_task done now (some (task w)) v h = (w, refl, cc)
cleared_task done now (some broken) v h = unfold clear_in in cc

module _ (set_list : List ℕ → List ℕ) where
  load_ok : (i : ℕ) (fs : Files) (t : Task) → load i fs ≡ ok t → read i fs ≡ some (task t)
  unfolding load
  load_ok i fs t h = ground arith

  -- The checks of an `update` that succeeds, and the edit that it makes.
  pub update_ok :
      (i : ℕ) (c : Change) (now : String) (m : TaskManager) (u : Task)
      → (update set_list i c now m).0 ≡ ok u
      → (t : Task) × (status : Option Status) × (read i m.files ≡ some (task t))
        × (checked_status c.status ≡ ok status)
        × (missing c.add_blocked_by m.files ≡ none)
        × (u ≡ edit set_list status c now t)
        × (update set_list i c now m ≡ commit set_list i status c now t m)
  unfolding update
  update_ok i c now m u h = ground arith

  -- An `update` that is refused changes nothing.
  pub update_refused :
      (i : ℕ) (c : Change) (now : String) (m : TaskManager) {e : TaskError}
      → (update set_list i c now m).0 ≡ err e
      → (update set_list i c now m).1 ≡ m
  unfolding update
  update_refused i c now m h = ground arith

  -- The directory after an `update` that succeeds, file by file: the task's own file holds what is
  -- returned, and every other file is as it was, but cleared of the id if the task is completed.
  pub update_files :
      (i : ℕ) (c : Change) (now : String) (m : TaskManager) (u : Task) (status : Option Status)
      (t : Task)
      → read i m.files ≡ some (task t)
      → t.id ≡ i
      → (j : ℕ) → (edit set_list status c now t).id ≡ i
      → read j (commit set_list i status c now t m).1.files ≡ (
          if i == j
          then some (task (edit set_list status c now t))
          else if is_completed status
          then cleared i now (read j m.files)
          else read j m.files)
  unfolding commit save
  update_files i c now m u status t r e j ei = ground (
    arith,
    read-write j (edit set_list status c now t).id (task (edit set_list status c now t)) m.files,
    read-write j (edit set_list status c now t).id (task (edit set_list status c now t))
        (clear_dependency i now m.files),
    read-clear_dependency j i now m.files,
  )

  pub edit_id :
      (status : Option Status) (c : Change) (now : String) (t : Task)
      → (edit set_list status c now t).id ≡ t.id
  unfolding edit
  edit_id status c now t = refl

  -- Completing a task takes it out of the dependencies of every other task: whatever task another
  -- file then holds was there before, and waits for the same tasks but the completed one.
  pub complete_unblocks :
      (i : ℕ) (c : Change) (now : String) (m : TaskManager) (u : Task)
      → IsClosed m.files
      → c.status ≡ some (known completed)
      → (update set_list i c now m).0 ≡ ok u
      → (j : ℕ) (k : ℕ) (v : Task) → i ≢ j
      → read j (update set_list i c now m).1.files ≡ some (task v)
      → (w : Task) × (read j m.files ≡ some (task w))
        × (v.id ≡ w.id)
        × (mem_nat k v.blocked_by ≡ (if k == i then false else mem_nat k w.blocked_by))
  complete_unblocks i c now m u closed s h j k v ne r =
      let (t, status, found, st, free, eu, e) = update_ok i c now m u h in
      let se : status ≡ some completed = ground arith in
      let after =
        update_files i c now m u status t found (closed.named i t found) j
          (edit_id status c now t ∙ closed.named i t found) in
      let cl : cleared i now (read j m.files) ≡ some (task v) = ground arith in
      let (w, old, step) = cleared_task i now (read j m.files) v cl in
      let (same, gone) = mem-clear_in i k now w v step in (w, old, same, gone)
