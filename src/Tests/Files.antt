-- ===== src/Tests/Files.antt =====
-- Two readers and two writers of one file, by descriptors and by streams.
use sem_os.Base.{
  All, Bool, ◌*◌, ◌+◌, ◌⊎◌, length, ◌++◌, ℕ, ◌≡◌, refl, arith, List, [], ◌∷◌, true, false,
}
use sem_os.Files.Appenders.{System, Step, Steps, stop, more, begin, letters_of, parity, appends_lem}
use sem_os.Files.Reports.{Fits, lines_of, lines_due, total_work, reports_lem}
use sem_os.Files.Readers.{read}
use sem_os.Files.Racers as Racers
use sem_os.Files.Races as Races
use sem_os.Files.Races.{HaveWritten, races-write}
use sem_os.Files.Shared.{getc}
use sem_os.Files.Threads as Threads
use sem_os.Files.Bags.{HasPrinted, left, threads-print}

-- The letters "ab", in a file that has an "x".
abbrev letters : List ℕ
letters = 97 ∷ 98 ∷ []

-- The thread of the odd codes reads the size 2 for its line, and then the other one writes, and prints
-- the size 3 before it: the sizes in the output get smaller.
abbrev ran : (s : System) × Steps (begin letters (120 ∷ [])) s
ran =
    let odd_read =
      more
        (more (more (more stop (Step.write true refl refl)) (Step.find true refl))
          (Step.store true refl))
        (Step.load true refl) in
    let even_read =
      more
        (more (more (more odd_read (Step.write false refl refl)) (Step.find false refl))
          (Step.store false refl))
        (Step.load false refl) in
    (_, more (more even_read (Step.print false refl)) (Step.print true refl))

appends_lem_example :
    letters_of 1 (ran.0.contents) ≡ letters_of 1 (120 ∷ []) ++ letters_of 1 letters
appends_lem_example = appends_lem letters (120 ∷ []) ran.0 true ran.1 refl

reports_lem_example :
    All {A = Bool × ℕ} (λ l. Fits 1 3 l.1) ((true, 2) ∷ (false, 3) ∷ [])
    × ((i : Bool)
        → lines_of i ran.0.out + lines_due (ran.0.writer i)
          ≡ length (letters_of (parity i) letters))
    × ((total_work ran.0 ≡ 0) ⊎ ((t : System) × Step ran.0 t))
    × ((t : System) → Step ran.0 t → total_work t + 1 ≡ total_work ran.0)
reports_lem_example = reports_lem letters (120 ∷ []) ran.0 ran.1

-- One byte, which the second thread reads and prints.
abbrev scanned : Threads.System
scanned = record (Threads.begin (7 ∷ [])) {
  rest = [];
  thread =
      Threads.put true (record { buffer = []; state = Threads.holding 7 })
        (Threads.begin (7 ∷ [])).thread;
}

abbrev printed : Threads.System
printed = record scanned {
  thread = Threads.put true (record { buffer = []; state = Threads.scanning }) scanned.thread;
  out = (true, 7) ∷ [];
}

abbrev first_ended : Threads.System
first_ended = record printed {
  thread = Threads.put false (record { buffer = []; state = Threads.returned }) printed.thread;
}

abbrev ended : Threads.System
ended = record first_ended {
  thread = Threads.put true (record { buffer = []; state = Threads.returned }) first_ended.thread;
}

ended-Steps : Threads.Steps 2 (Threads.begin (7 ∷ [])) ended
unfolding getc
ended-Steps =
    Threads.later
      (Threads.later
        (Threads.later (Threads.later Threads.start (Threads.Step.scan true refl refl))
          (Threads.Step.print true refl))
        (Threads.Step.end false refl refl))
      (Threads.Step.end true refl refl)

threads-print_example :
    (HasPrinted (7 ∷ []) ended ⊎ ((t : Threads.System) × Threads.Step 2 ended t))
    × ((t : Threads.System) → Threads.Step 2 ended t → left t + 1 ≡ left ended)
    × (left (Threads.begin (7 ∷ [])) ≡ 2 * 1 + 2)
threads-print_example = threads-print 2 (7 ∷ []) ended (omega arith) ended-Steps

-- The second thread has read and written the one byte, and the first has read it.
abbrev raced : (s : Racers.System) × Racers.Steps (7 ∷ []) Racers.begin s
unfolding read
raced = (
  _,
  Racers.later
      (Racers.later (Racers.later Racers.start (Racers.Step.read_byte true refl refl))
        (Racers.Step.write_byte true refl))
      (Racers.Step.read_byte false refl refl),
)

races-write_example :
    (HaveWritten (7 ∷ []) raced.0 ⊎ ((t : Racers.System) × Racers.Step (7 ∷ []) raced.0 t))
    × ((t : Racers.System)
        → Racers.Step (7 ∷ []) raced.0 t
        → Races.left (7 ∷ []) t + 1 ≡ Races.left (7 ∷ []) raced.0)
    × (Races.left (7 ∷ []) Racers.begin ≡ 4 * 1 + 2)
races-write_example = races-write (7 ∷ []) raced.0 raced.1
