-- ===== src/TaskInfo.antt =====
-- 4/proc_info/md.c, a module that logs the tasks of the system when it is loaded.
use mathlib.Core.Option
use sem_os.Base.{
  ℕ, zero, suc, ◌<◌, ◌≡◌, ◌≢◌, refl, ◌==◌, if◌then◌else◌, ne→==, ==-refl, Option, none, some, List,
  [], ◌∷◌, ◌++◌, arith, length, ap, ◌⊎◌, inl, inr,
}

-- The names of the two directories of an `fs_struct`.
pub record Fs : Type 0 where
  pub root : List ℕ
  pub pwd : List ℕ

-- The fields of a `task_struct` that are shown; pointers to tasks are numbers. A task that exits gives
-- its `fs` back, which is NULL then.
pub record Task : Type 0 where
  pub comm : List ℕ
  pub pid : ℕ
  pub parent : ℕ
  pub state : ℕ
  pub flags : ℕ
  pub prio : ℕ
  pub policy : ℕ
  pub fs : Option Fs

-- The tasks of the kernel, `next_task`, `init_task` and `current`.
pub record Tasks : Type 0 where
  pub at : ℕ → Task
  pub next_task : ℕ → ℕ
  pub init_task : ℕ
  pub current : ℕ

-- A line of the log.
pub record Line : Type 0 where
  pub taskp : ℕ
  pub task : List ℕ
  pub pid : ℕ
  pub parent : List ℕ
  pub ppid : ℕ
  pub state : ℕ
  pub flags : ℕ
  pub prio : ℕ
  pub root : List ℕ
  pub policy : ℕ
  pub pwd : List ℕ

-- The line of a task, `none` for the use of NULL.
unfoldable pub describe : Tasks → ℕ → Option Line
describe k t =
    let task = k.at t in
    let parent = k.at task.parent in
    Option.map
      (λ fs. record {
        taskp = t;
        task = task.comm;
        pid = task.pid;
        parent = parent.comm;
        ppid = parent.pid;
        state = task.state;
        flags = task.flags;
        prio = task.prio;
        root = fs.root;
        policy = task.policy;
        pwd = fs.pwd;
      })
      task.fs

-- How the loading of the module ends.
pub data End : Type 0 where
  returned : ℕ → End
  crashed : End
  unfinished : End

abbrev pub Run : Type 0
Run = List Line × End

abbrev pub before : Line → Run → Run
before l r = (l ∷ r.0, r.1)

abbrev pub shown : Option Line → Run → Run
shown none r = ([], crashed)
shown (some l) r = before l r

-- `do … while ((task = next_task(task)) != &init_task)`, for at most so many rounds, and the line of
-- the current task behind it.
unfoldable pub walk : Tasks → (fuel task : ℕ) → Run
unfolding describe
walk k zero task = ([], unfinished)
walk k (suc n) task =
    let next = k.next_task task in
    let rest = walk k n next in
    shown (describe k task)
      (if next == k.init_task then shown (describe k k.current) ([], returned 0) else rest)

unfoldable pub md_init : Tasks → (fuel : ℕ) → Run
unfolding walk
md_init k n = walk k n k.init_task

-- The tasks behind `t`, up to the one before `init_task`.
abbrev pub IsRing : Tasks → ℕ → List ℕ → Type 0
IsRing k t [] = k.next_task t ≡ k.init_task
IsRing k t (u ∷ us) = (k.next_task t ≡ u) × (u ≢ k.init_task) × IsRing k u us

-- A line is about the task `t`: each of its entries is what the kernel has of the task, or of its
-- parent.
pub record IsAbout (k : Tasks) (t : ℕ) (l : Line) : Type 0 where
  pub pointer : l.taskp ≡ t
  pub name : l.task ≡ (k.at t).comm
  pub number : l.pid ≡ (k.at t).pid
  pub parent_name : l.parent ≡ (k.at (k.at t).parent).comm
  pub parent_number : l.ppid ≡ (k.at (k.at t).parent).pid
  pub scheduling :
      (l.state ≡ (k.at t).state) × (l.prio ≡ (k.at t).prio) × (l.policy ≡ (k.at t).policy)
  pub flag_bits : l.flags ≡ (k.at t).flags
  pub directories : (k.at t).fs ≡ some (record { root = l.root; pwd = l.pwd })

-- Lines about tasks, one for each, in their order.
abbrev pub AreAbout : Tasks → List ℕ → List Line → Type 0
AreAbout k [] [] = Unit
AreAbout k [] (l ∷ ls) = ⊥
AreAbout k (t ∷ ts) [] = ⊥
AreAbout k (t ∷ ts) (l ∷ ls) = IsAbout k t l × AreAbout k ts ls

-- What is logged of some tasks: all of their lines, or those of the tasks before the first that has
-- no `fs`, where the module crashes.
pub record HasLogged (k : Tasks) (ts : List ℕ) (r : Run) : Type 0 where
  pub seen : List ℕ
  pub about : AreAbout k seen r.0
  pub end :
      ((seen ≡ ts) × (r.1 ≡ returned 0))
      ⊎ ((t : ℕ) × (rest : List ℕ) × (ts ≡ seen ++ (t ∷ rest))
          × ((k.at t).fs ≡ none)
          × (r.1 ≡ crashed))

describe-IsAbout :
    (k : Tasks) (t : ℕ)
    → ((l : Line) × (describe k t ≡ some l) × IsAbout k t l)
      ⊎ ((describe k t ≡ none) × ((k.at t).fs ≡ none))
unfolding describe
describe-IsAbout k t = go (k.at t).fs refl
  where
    go :
        (o : Option Fs)
        → (k.at t).fs ≡ o
        → ((l : Line) × (describe k t ≡ some l) × IsAbout k t l)
          ⊎ ((describe k t ≡ none) × ((k.at t).fs ≡ none))
    go none e = inr (rw e refl, e)
    go (some fs) e = inl (
      _,
      rw e refl,
      record {
        pointer = refl;
        name = refl;
        number = refl;
        parent_name = refl;
        parent_number = refl;
        scheduling = (refl, refl, refl);
        flag_bits = refl;
        directories = e;
      },
    )

shown-HasLogged :
    (k : Tasks) (t : ℕ) (ts : List ℕ) (r : Run)
    → HasLogged k ts r
    → HasLogged k (t ∷ ts) (shown (describe k t) r)
shown-HasLogged k t ts r h = elim (describe-IsAbout k t) [
  | inr e ↦ rw e.0 (record { seen = []; about = tt; end = inr (t, ts, refl, e.1, refl) })
  | inl (l, e, a) ↦ rw e (record {
    seen = t ∷ h.seen;
    about = (a, h.about);
    end = elim h.end [
      | inl x ↦ inl (ap (λ us. t ∷ us) x.0, x.1)
      | inr (u, rest, x, f, c) ↦ inr (u, rest, ap (λ us. t ∷ us) x, f, c)
    ];
  })
]

walk-HasLogged :
    (k : Tasks) (n t : ℕ) (us : List ℕ)
    → IsRing k t us
    → length us < n
    → HasLogged k (t ∷ (us ++ (k.current ∷ []))) (walk k n t)
unfolding walk
walk-HasLogged k zero t us r h = absurd (omega arith)
walk-HasLogged k (suc n) t [] r h =
    rw (r, ==-refl k.init_task)
      (shown-HasLogged k t (k.current ∷ []) _ (
        shown-HasLogged k k.current [] ([], returned 0)
          (record { seen = []; about = tt; end = inl (refl, refl) })))
walk-HasLogged k (suc n) t (u ∷ us) r h =
    rw (r.0, ne→== u k.init_task r.1)
      (shown-HasLogged k t _ _ (walk-HasLogged k n u us r.2 (omega arith)))

-- If the tasks are a ring, the loop comes to its end: it logs each task once, from `init_task` on,
-- with what the kernel has of it and of its parent, and behind them the current one; or, if one of
-- these has no `fs` any more, the tasks before that one, and crashes at it.
pub md_init_once :
    (k : Tasks) (n : ℕ) (us : List ℕ)
    → IsRing k k.init_task us
    → length us < n
    → HasLogged k (k.init_task ∷ (us ++ (k.current ∷ []))) (md_init k n)
unfolding md_init
md_init_once k n us r h = walk-HasLogged k n k.init_task us r h
