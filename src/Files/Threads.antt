-- ===== src/Files/Threads.antt =====
-- 8/open_file/src/1_thread.c: two threads, each with its own buffered stream over one descriptor.
use sem_os.Base.{ℕ, ◌≡◌, Bool, true, false, none, some, List, [], ◌∷◌, ◌++◌}
use sem_os.Files.Shared.{getc}

-- A thread is before its `fscanf`, has a byte that it has not printed yet, or has returned.
pub data State : Type 0 where
  scanning : State
  holding : ℕ → State
  returned : State

pub record Thread : Type 0 where
  pub buffer : List ℕ
  pub state : State

-- What the descriptor has left, the threads, and the output, each line with its thread.
pub record System : Type 0 where
  pub rest : List ℕ
  pub thread : Bool → Thread
  pub out : List (Bool × ℕ)

abbrev pub begin : List ℕ → System
begin contents = record {
  rest = contents;
  thread = λ i. record { buffer = []; state = scanning };
  out = [];
}

abbrev pub put {ℓ} : {A : Type ℓ} → Bool → A → (Bool → A) → Bool → A
put false t f false = t
put false t f true = f true
put true t f false = f false
put true t f true = t

-- `thread_start` of the thread `i`, with a buffer of `size` bytes: `fscanf`, whose `read` is one
-- system call, and `fprintf`, in any order with those of the other thread.
pub data Step (size : ℕ) : System → System → Type 0 where
  scan :
      {s : System} {c : ℕ} {b r : List ℕ} (i : Bool)
      → (s.thread i).state ≡ scanning
      → getc size (s.thread i).buffer s.rest ≡ (some c, b, r)
      → Step size s (record s {
        rest = r;
        thread = put i (record { buffer = b; state = holding c }) s.thread;
      })
  print :
      {s : System} {c : ℕ} (i : Bool)
      → (s.thread i).state ≡ holding c
      → Step size s (record s {
        thread = put i (record { buffer = (s.thread i).buffer; state = scanning }) s.thread;
        out = s.out ++ ((i, c) ∷ []);
      })
  end :
      {s : System} {b r : List ℕ} (i : Bool)
      → (s.thread i).state ≡ scanning
      → getc size (s.thread i).buffer s.rest ≡ (none, b, r)
      → Step size s
          (record s { rest = r; thread = put i (record { buffer = b; state = returned }) s.thread })

pub data Steps (size : ℕ) : System → System → Type 0 where
  start : {s : System} → Steps size s s
  later : {s t u : System} → Steps size s t → Step size t u → Steps size s u
