-- ===== src/Sockets/Pair.antt =====
-- 2/paired-sockets/main.c: a parent and its child, which send each other a text over a pair of
-- sockets.
use sem_os.Base.{ℕ, ◌≢◌, Bool, not, Option, List, [], ◌∷◌, ◌++◌, take, drop, length, if◌then◌else◌}
use sem_os.Memory.{c_string}
use sem_os.ProcInfo.Run.{codes}

-- `messages[0]` and `messages[1]` with their NUL bytes.
abbrev pub message_0 : List ℕ
message_0 = codes "ayyyyyyyy" ++ (0 ∷ [])

abbrev pub message_1 : List ℕ
message_1 = codes "zzzzzzzz" ++ (0 ∷ [])

-- What `waitpid` stores of the child, by the macro that is true of it.
pub data Status : Type 0 where
  wif_exited : (exit_code : ℕ) → Status
  wif_signaled : (signal : ℕ) → Status
  wif_stopped : (signal : ℕ) → Status
  continued : Status

-- A line that a process prints. The text of "%s" is `none` where the array has no NUL byte.
pub data Line : Type 0 where
  sent : Option (List ℕ) → Line
  received : Option (List ℕ) → Line
  exited_with : ℕ → Line
  received_signal : ℕ → Line

unfoldable pub report : Status → List Line
report (wif_exited exit_code) = exited_with exit_code ∷ []
report (wif_signaled signal) = received_signal signal ∷ []
report (wif_stopped signal) = received_signal signal ∷ []
report continued = []

-- What each process does next. The parent is in `waitpid` when it is `waiting`.
pub data Child : Type 0 where
  writing : Child
  reading : Child
  exited : Child

pub data Parent : Type 0 where
  reading : Parent
  writing : Parent
  waiting : Parent
  ended : Parent

-- The processes, the bytes that are on their way, and the array and the output of each.
pub record System : Type 0 where
  pub child : Child
  pub parent : Parent
  pub to_parent : List ℕ
  pub to_child : List ℕ
  pub child_buf : List ℕ
  pub parent_buf : List ℕ
  pub child_out : List Line
  pub parent_out : List Line

-- After `fork`, with arrays that are not set.
abbrev pub forked : List ℕ → List ℕ → System
forked child_buf parent_buf = record {
  child = Child.writing;
  parent = Parent.reading;
  to_parent = [];
  to_child = [];
  child_buf = child_buf;
  parent_buf = parent_buf;
  child_out = [];
  parent_out = [];
}

-- How `main` gets to the two processes, or ends with `exit` before there are two.
pub data Start : Type 0 where
  refused : (exit_code : ℕ) → Start
  running : System → Start

unfoldable pub main : (socketpair_ok fork_ok : Bool) → List ℕ → List ℕ → Start
main socketpair_ok fork_ok child_buf parent_buf =
    if not socketpair_ok
    then refused 1
    else if not fork_ok
    then refused 1
    else running (forked child_buf parent_buf)

-- What `read` of at most `size` bytes leaves in an array.
abbrev pub fill : (size : ℕ) → List ℕ → List ℕ → List ℕ
fill size bytes buf = take size bytes ++ drop (length (take size bytes)) buf

-- A `read` waits for a first byte and takes what there is, up to its length. A process prints to
-- its own output, together with the call before it.
pub data Step : System → System → Type 0 where
  child_writes :
      {p : Parent} {up down c d : List ℕ} {co po : List Line}
      → Step
          (record {
            child = Child.writing;
            parent = p;
            to_parent = up;
            to_child = down;
            child_buf = c;
            parent_buf = d;
            child_out = co;
            parent_out = po;
          })
          (record {
            child = Child.reading;
            parent = p;
            to_parent = up ++ message_0;
            to_child = down;
            child_buf = c;
            parent_buf = d;
            child_out = co ++ (sent (c_string message_0) ∷ []);
            parent_out = po;
          })
  child_reads :
      {p : Parent} {up down c d : List ℕ} {co po : List Line}
      → down ≢ []
      → Step
          (record {
            child = Child.reading;
            parent = p;
            to_parent = up;
            to_child = down;
            child_buf = c;
            parent_buf = d;
            child_out = co;
            parent_out = po;
          })
          (record {
            child = Child.exited;
            parent = p;
            to_parent = up;
            to_child = drop 9 down;
            child_buf = fill 9 down c;
            parent_buf = d;
            child_out = co ++ (received (c_string (fill 9 down c)) ∷ []);
            parent_out = po;
          })
  parent_reads :
      {k : Child} {up down c d : List ℕ} {co po : List Line}
      → up ≢ []
      → Step
          (record {
            child = k;
            parent = Parent.reading;
            to_parent = up;
            to_child = down;
            child_buf = c;
            parent_buf = d;
            child_out = co;
            parent_out = po;
          })
          (record {
            child = k;
            parent = Parent.writing;
            to_parent = drop 10 up;
            to_child = down;
            child_buf = c;
            parent_buf = fill 10 up d;
            child_out = co;
            parent_out = po ++ (received (c_string (fill 10 up d)) ∷ []);
          })
  parent_writes :
      {k : Child} {up down c d : List ℕ} {co po : List Line}
      → Step
          (record {
            child = k;
            parent = Parent.writing;
            to_parent = up;
            to_child = down;
            child_buf = c;
            parent_buf = d;
            child_out = co;
            parent_out = po;
          })
          (record {
            child = k;
            parent = Parent.waiting;
            to_parent = up;
            to_child = down ++ message_1;
            child_buf = c;
            parent_buf = d;
            child_out = co;
            parent_out = po ++ (sent (c_string message_1) ∷ []);
          })
  -- The child has called `exit(0)`.
  parent_waits :
      {up down c d : List ℕ} {co po : List Line}
      → Step
          (record {
            child = Child.exited;
            parent = Parent.waiting;
            to_parent = up;
            to_child = down;
            child_buf = c;
            parent_buf = d;
            child_out = co;
            parent_out = po;
          })
          (record {
            child = Child.exited;
            parent = Parent.ended;
            to_parent = up;
            to_child = down;
            child_buf = c;
            parent_buf = d;
            child_out = co;
            parent_out = po ++ report (wif_exited 0);
          })

pub data Reach (s : System) : System → Type 0 where
  start : Reach s s
  later : {t u : System} → Reach s t → Step t u → Reach s u

-- The states that a start comes to: none, if there is no child.
abbrev pub ReachFrom : Start → System → Type 0
ReachFrom (refused exit_code) s = ⊥
ReachFrom (running t) s = Reach t s
