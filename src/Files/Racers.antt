-- ===== src/Files/Racers.antt =====
-- 8/open_file/src/2_thread.c: two threads, each with its own descriptor of one file, which write to one
-- output.
use sem_os.Base.{ℕ, ◌≡◌, Bool, none, some, List, [], ◌∷◌, ◌++◌}
use sem_os.Files.Readers.{read}
use sem_os.Files.Threads.{put}

-- A thread is before its `read`, has a byte that it has not written yet, or has returned.
pub data State : Type 0 where
  reading : State
  holding : ℕ → State
  returned : State

pub record Thread : Type 0 where
  pub offset : ℕ
  pub state : State

-- The threads, and the output with the thread of each byte.
pub record System : Type 0 where
  pub thread : Bool → Thread
  pub out : List (Bool × ℕ)

abbrev pub begin : System
begin = record { thread = λ i. record { offset = 0; state = reading }; out = [] }

-- `thread_start` of the thread `i`, in any order with the other one.
pub data Step (contents : List ℕ) : System → System → Type 0 where
  read_byte :
      {s : System} {c o : ℕ} (i : Bool)
      → (s.thread i).state ≡ reading
      → read contents (s.thread i).offset ≡ (some c, o)
      → Step contents s
          (record s { thread = put i (record { offset = o; state = holding c }) s.thread })
  write_byte :
      {s : System} {c : ℕ} (i : Bool)
      → (s.thread i).state ≡ holding c
      → Step contents s (record s {
        thread = put i (record { offset = (s.thread i).offset; state = reading }) s.thread;
        out = s.out ++ ((i, c) ∷ []);
      })
  end :
      {s : System} {o : ℕ} (i : Bool)
      → (s.thread i).state ≡ reading
      → read contents (s.thread i).offset ≡ (none, o)
      → Step contents s
          (record s { thread = put i (record { offset = o; state = returned }) s.thread })

pub data Steps (contents : List ℕ) : System → System → Type 0 where
  start : {s : System} → Steps contents s s
  later : {s t u : System} → Steps contents s t → Step contents t u → Steps contents s u
