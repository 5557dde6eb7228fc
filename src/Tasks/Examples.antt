-- ===== src/Tasks/Examples.antt =====
-- The task theorems on a small directory: task 2 waits for task 1.
use claudecode_lite_main.Prelude.{
  ℕ, String, List, [], ◌∷◌, some, false, ◌≡◌, refl, arith, ◌==◌, if◌then◌else◌,
}
use claudecode_lite_main.Tasks.Model.{
  pending, completed, known, Task, task, broken, TaskManager, mem_nat, read, write, load, save,
  missing, clear_in, clear_dependency, open_dir, max_id, create, Change, edit, commit, update,
  list_all,
}
use claudecode_lite_main.Tasks.Updates.{
  IsClosed, Created, open_dir-IsFresh, create-Created, create-IsFresh, create-IsClosed,
}
use claudecode_lite_main.Tasks.Completion.{complete_unblocks}
use claudecode_lite_main.Tasks.Closed.{update-IsClosed}

abbrev empty : TaskManager
empty = open_dir []

abbrev one : TaskManager
one = (create "parse" "" [] "t0" empty).1

abbrev two : TaskManager
two = (create "print" "" (1 ∷ []) "t1" one).1

abbrev same : List ℕ → List ℕ
same xs = xs

program : Unit {0}
unfolding open_dir max_id create update load missing read write save clear_in clear_dependency edit
    commit
program = tt

abbrev finish : Change
finish = record { status = some (known completed); add_blocked_by = []; remove_blocked_by = [] }

abbrev waiting_task : List ℕ → String → Task
waiting_task blocked_by now = record {
  id = 2;
  subject = "print";
  description = "";
  status = pending;
  blocked_by = blocked_by;
  created_at = "t1";
  updated_at = now;
}

update-two : read 2 (update same 1 finish "t2" two).1.files ≡ some (task (waiting_task [] "t2"))
unfolding program
update-two = refl

listed : list_all ((2, task (waiting_task [] "t")) ∷ (1, broken) ∷ []) ≡ waiting_task [] "t" ∷ []
unfolding list_all
listed = refl

empty-IsClosed : IsClosed []
unfolding read
empty-IsClosed = record { named = λ i t h. cc; blockers = λ i j t h k. cc }

two-IsClosed : IsClosed two.files
two-IsClosed =
    create-IsClosed "print" "" (1 ∷ []) "t1" one
      (create-IsClosed "parse" "" [] "t0" empty (unfold program in empty-IsClosed))

create-Created_example : Created (1 ∷ []) one (create "print" "" (1 ∷ []) "t1" one)
create-Created_example =
    create-Created "print" "" (1 ∷ []) "t1" one
      (create-IsFresh "parse" "" [] "t0" empty (open_dir-IsFresh []))

complete_unblocks_example :
    (w : Task) × (read 2 two.files ≡ some (task w))
    × (2 ≡ w.id)
    × (mem_nat 1 [] ≡ (if 1 == 1 then false else mem_nat 1 w.blocked_by))
unfolding program
complete_unblocks_example =
    complete_unblocks same 1 finish "t2" two
      (edit same (some completed) finish "t2" (record {
        id = 1;
        subject = "parse";
        description = "";
        status = pending;
        blocked_by = [];
        created_at = "t0";
        updated_at = "t0";
      }))
      two-IsClosed refl refl 2 1 (waiting_task [] "t2") (omega arith) refl

update-IsClosed_example : IsClosed (update same 1 finish "t2" two).1.files
update-IsClosed_example = update-IsClosed same (λ x xs. refl) 1 finish "t2" two two-IsClosed
