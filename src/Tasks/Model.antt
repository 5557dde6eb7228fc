-- ===== src/Tasks/Model.antt =====
-- core/task/model.py and core/task/manager.py. The directory is the list of its `task_<id>.json` files
-- in the order in which `glob` gives it; a file that holds no JSON object is `broken`. The clock gives the
-- text of `_now()` as an argument, and `set_list` is `list(set(...))` of the standard library.
use claudecode_lite_main.Prelude.{
  ℕ, ◌+◌, String, List, [], ◌∷◌, ◌++◌, Option, none, some, Bool, true, false, not, ◌==◌, any, keep,
  leb, max, if◌then◌else◌,
}

pub data Status : Type 0 where
  pending in_progress completed : Status

-- The status that a caller passes: any text that is none of the three is `unknown`.
pub data GivenStatus : Type 0 where
  known : Status → GivenStatus
  unknown : GivenStatus

pub record Task : Type 0 where
  pub id : ℕ
  pub subject : String
  pub description : String
  pub status : Status
  pub blocked_by : List ℕ
  pub created_at : String
  pub updated_at : String

pub data Content : Type 0 where
  task : Task → Content
  broken : Content

abbrev pub Files : Type 0
Files = List (ℕ × Content)

pub data TaskError : Type 0 where
  not_found : ℕ → TaskError
  blocker_not_found : ℕ → TaskError
  invalid_status : TaskError
  bad_json : TaskError

pub data Result (A : Type 0) : Type 0 where
  ok : A → Result A
  err : TaskError → Result A

pub record TaskManager : Type 0 where
  pub files : Files
  pub next_id : ℕ

abbrev pub mem_nat : ℕ → List ℕ → Bool
mem_nat n xs = any (λ x. x == n) xs

unfoldable pub read : ℕ → Files → Option Content
read i [] = none
read i ((j, c) ∷ fs) = if j == i then some c else read i fs

unfoldable pub write : ℕ → Content → Files → Files
write i c [] = (i, c) ∷ []
write i c ((j, d) ∷ fs) = if j == i then (i, c) ∷ fs else (j, d) ∷ write i c fs

-- `path.exists()`.
abbrev pub exists : ℕ → Files → Bool
exists i fs = elim (read i fs) [ none ↦ false | some _ ↦ true ]

-- `_max_id`.
unfoldable pub max_id : Files → ℕ
max_id [] = 0
max_id ((j, c) ∷ fs) = max j (max_id fs)

-- `TaskManager(tasks_dir)`.
unfoldable pub open_dir : Files → TaskManager
unfolding max_id
open_dir fs = record { files = fs; next_id = max_id fs + 1 }

-- `_load`.
unfoldable pub load : ℕ → Files → Result Task
load i fs = elim (read i fs) [
  | none ↦ err (not_found i)
  | some c ↦ elim c [ task t ↦ ok t | broken ↦ err bad_json ]
]

-- `_save`.
unfoldable pub save : Task → Files → Files
unfolding write
save t fs = write t.id (task t) fs

-- The first of the ids that has no file.
unfoldable pub missing : List ℕ → Files → Option ℕ
missing [] fs = none
missing (i ∷ is) fs = if exists i fs then missing is fs else some i

-- `_clear_dependency` on one file. `broken` stands for a file that `json.loads` refuses; files of valid JSON
-- that are no object, or with an id that `int` refuses, on which the source raises, are left out.
unfoldable pub clear_in : ℕ → String → Content → Content
clear_in done_id now broken = broken
clear_in done_id now (task t) =
    if mem_nat done_id t.blocked_by
    then task
        (record t { blocked_by = keep (λ x. not (x == done_id)) t.blocked_by; updated_at = now })
    else task t

unfoldable pub clear_dependency : ℕ → String → Files → Files
unfolding clear_in
clear_dependency done_id now [] = []
clear_dependency done_id now ((j, c) ∷ fs) =
    (j, clear_in done_id now c) ∷ clear_dependency done_id now fs

unfoldable pub create : String → String → List ℕ → String → TaskManager → Result Task × TaskManager
unfolding save missing
create subject description blocked_by now m = elim (missing blocked_by m.files) [
  | some i ↦ (err (blocker_not_found i), m)
  | none ↦
      let t : Task = record {
        id = m.next_id;
        subject = subject;
        description = description;
        status = pending;
        blocked_by = blocked_by;
        created_at = now;
        updated_at = now;
      } in
      (ok t, record m { files = save t m.files; next_id = m.next_id + 1 })
]

-- What `update` is asked for.
pub record Change : Type 0 where
  pub status : Option GivenStatus
  pub add_blocked_by : List ℕ
  pub remove_blocked_by : List ℕ

abbrev pub is_completed : Option Status → Bool
is_completed (some completed) = true
is_completed _ = false

-- The check of `status` in `update`.
abbrev pub checked_status : Option GivenStatus → Result (Option Status)
checked_status none = ok none
checked_status (some (known s)) = ok (some s)
checked_status (some unknown) = err invalid_status

module _ (set_list : List ℕ → List ℕ) where
  -- `list(set(task.blocked_by + add_blocked_by))` if there is anything to add.
  abbrev pub with_added : List ℕ → List ℕ → List ℕ
  with_added [] old = old
  with_added (i ∷ is) old = set_list (old ++ (i ∷ is))

  -- The fields that `update` assigns, once everything is checked.
  unfoldable pub edit : Option Status → Change → String → Task → Task
  edit status c now t = record t {
    status = elim status [ none ↦ t.status | some s ↦ s ];
    blocked_by =
        keep (λ x. not (mem_nat x c.remove_blocked_by)) (with_added c.add_blocked_by t.blocked_by);
    updated_at = now;
  }

  -- The part of `update` behind its checks.
  unfoldable pub commit :
      ℕ → Option Status → Change → String → Task → TaskManager → Result Task × TaskManager
  unfolding edit save clear_dependency
  commit task_id status c now t m =
      let cleared = if is_completed status then clear_dependency task_id now m.files else m.files in
      let t' = edit status c now t in (ok t', record m { files = save t' cleared })

  unfoldable pub update : ℕ → Change → String → TaskManager → Result Task × TaskManager
  unfolding commit load missing
  update task_id c now m = elim (load task_id m.files) [
    | err e ↦ (err e, m)
    | ok t ↦ elim (checked_status c.status) [
      | err e ↦ (err e, m)
      | ok status ↦ elim (missing c.add_blocked_by m.files) [
        | some i ↦ (err (blocker_not_found i), m)
        | none ↦ commit task_id status c now t m
      ]
    ]
  ]

-- `sorted(..., key=id)`: a file goes before the first one with a larger id.
unfoldable pub insert_sorted : ℕ × Content → Files → Files
insert_sorted f [] = f ∷ []
insert_sorted f (g ∷ fs) = if leb g.0 f.0 then g ∷ insert_sorted f fs else f ∷ g ∷ fs

unfoldable pub sort_onto : Files → Files → Files
unfolding insert_sorted
sort_onto acc [] = acc
sort_onto acc (f ∷ fs) = sort_onto (insert_sorted f acc) fs

-- The tasks of the files that parse.
unfoldable pub parsed : Files → List Task
parsed [] = []
parsed ((j, broken) ∷ fs) = parsed fs
parsed ((j, task t) ∷ fs) = t ∷ parsed fs

unfoldable pub list_all : Files → List Task
unfolding parsed sort_onto
list_all fs = parsed (sort_onto [] fs)
