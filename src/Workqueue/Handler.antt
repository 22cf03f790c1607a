-- ===== src/Workqueue/Handler.antt =====
-- `my_irq_handler`, `mywq_fun_1` and `mywq_fun_2` of 9/interrupts/workqueue/mywq.c, in any order of
-- interrupts and of the kernel's runs of the work.
use Prim.Native.String.{String}
use sem_os.Base.{
  ℕ, ◌≡◌, ◌≢◌, Bool, true, false, not, ◌&&◌, List, [], ◌∷◌, ◌++◌, Option, none, some, get_elem?,
  arith, ltb, ◌==◌, if◌then◌else◌, All, ◌⊎◌, inl, inr, ne→==, refl,
}
use sem_os.Tasklet.Keys.{ascii}

-- What the log shows of the work: its code and, behind the bound of the table, the name there.
pub record Shown : Type 0 where
  pub name : Option (Option String)
  pub code : ℕ

-- `work_1->code`, `work_2->code`, which work is queued, whether `mywq_fun_2` sleeps, and what the
-- two functions have printed, the latest first.
pub record Device : Type 0 where
  pub code_1 : ℕ
  pub code_2 : ℕ
  pub queued_1 : Bool
  pub queued_2 : Bool
  pub sleeping_2 : Bool
  pub log_1 : List Shown
  pub log_2 : List Shown

pub data IrqReturn : Type 0 where
  irq_handled irq_none : IrqReturn

abbrev pub irq_no : ℕ
irq_no = 1

-- The codes are stored before the interrupt's number is tested. Queued work is not queued twice.
unfoldable pub my_irq_handler : (irq inb : ℕ) → Device → IrqReturn × Device
my_irq_handler irq inb d =
    let d' = record d { code_1 = inb; code_2 = inb } in
    if irq == irq_no
    then (irq_handled, record d' { queued_1 = true; queued_2 = true })
    else (irq_none, d')

unfoldable pub mywq_fun_1 : Device → Device
mywq_fun_1 d = record d {
  log_1 =
      record {
        name = if ltb d.code_1 84 then some (get_elem? ascii d.code_1) else none;
        code = d.code_1;
      }
      ∷ d.log_1;
}

-- `mywq_fun_2` up to its `msleep`, and from there on: it reads the code only after the sleep.
unfoldable pub mywq_fun_2_sleep : Device → Device
mywq_fun_2_sleep d = record d { sleeping_2 = true }

unfoldable pub mywq_fun_2_wake : Device → Device
mywq_fun_2_wake d = record d {
  sleeping_2 = false;
  log_2 = record { name = none; code = d.code_2 } ∷ d.log_2;
}

pub data Event : Type 0 where
  interrupt : (irq inb : ℕ) → Event
  run_1 : Event
  start_2 : Event
  wake_2 : Event

-- Each queue runs one piece of work at a time, and the work is no longer queued when it starts.
unfoldable pub step : Device → Event → Device
unfolding my_irq_handler mywq_fun_1 mywq_fun_2_sleep mywq_fun_2_wake
step d (interrupt irq inb) = (my_irq_handler irq inb d).1
step d run_1 = if d.queued_1 then mywq_fun_1 (record d { queued_1 = false }) else d
step d start_2 =
    if d.queued_2 && not d.sleeping_2 then mywq_fun_2_sleep (record d { queued_2 = false }) else d
step d wake_2 = if d.sleeping_2 then mywq_fun_2_wake d else d

unfoldable pub run : Device → List Event → Device
run d [] = d
run d (e ∷ es) = run (step d e) es

-- The latest entry of a log shows the code `c`.
abbrev pub Shows : ℕ → List Shown → Type 0
Shows c [] = ⊥
Shows c (s ∷ log) = s.code ≡ c

-- A code that is stored is shown already, or work that will show it waits.
pub record IsCurrent (d : Device) : Type 0 where
  pub first : (d.queued_1 ≡ true) ⊎ Shows d.code_1 d.log_1
  pub second : (d.queued_2 ≡ true) ⊎ ((d.sleeping_2 ≡ true) ⊎ Shows d.code_2 d.log_2)

abbrev pub IsKeyboard : Event → Type 0
IsKeyboard (interrupt irq inb) = irq ≡ irq_no
IsKeyboard run_1 = Unit
IsKeyboard start_2 = Unit
IsKeyboard wake_2 = Unit

step-IsCurrent : (d : Device) (e : Event) → IsKeyboard e → IsCurrent d → IsCurrent (step d e)
unfolding step
step-IsCurrent d (interrupt irq inb) k c = ground arith
step-IsCurrent d run_1 k c = record {
  first = ground (arith, c.first);
  second = ground (arith, c.second);
}
step-IsCurrent d start_2 k c = record {
  first = ground (arith, c.first);
  second = ground (arith, c.second);
}
step-IsCurrent d wake_2 k c = record {
  first = ground (arith, c.first);
  second = ground (arith, c.second);
}

stays-IsCurrent :
    (es : List Event) (d : Device) → All IsKeyboard es → IsCurrent d → IsCurrent (run d es)
unfolding run
stays-IsCurrent [] d k c = c
stays-IsCurrent (e ∷ es) d k c = stays-IsCurrent es (step d e) k.1 (step-IsCurrent d e k.0 c)

key-IsCurrent : (inb : ℕ) (d : Device) → IsCurrent (step d (interrupt irq_no inb))
unfolding step my_irq_handler
key-IsCurrent inb d = record { first = inl refl; second = inl refl }

-- The latest of some keys, `inb` before them.
abbrev pub latest : ℕ → List Event → ℕ
latest inb [] = inb
latest inb (interrupt irq new ∷ es) = latest new es
latest inb (run_1 ∷ es) = latest inb es
latest inb (start_2 ∷ es) = latest inb es
latest inb (wake_2 ∷ es) = latest inb es

run-latest :
    (es : List Event) (d : Device) (inb : ℕ)
    → d.code_1 ≡ inb
    → d.code_2 ≡ inb
    → ((run d es).code_1 ≡ latest inb es) × ((run d es).code_2 ≡ latest inb es)
unfolding run step my_irq_handler mywq_fun_1 mywq_fun_2_sleep mywq_fun_2_wake
run-latest [] d inb e f = (e, f)
run-latest (interrupt irq new ∷ es) d inb e f = run-latest es _ new (ground arith) (ground arith)
run-latest (run_1 ∷ es) d inb e f = run-latest es _ inb (ground arith) (ground arith)
run-latest (start_2 ∷ es) d inb e f = run-latest es _ inb (ground arith) (ground arith)
run-latest (wake_2 ∷ es) d inb e f = run-latest es _ inb (ground arith) (ground arith)

run-append : (es es' : List Event) (d : Device) → run d (es ++ es') ≡ run (run d es) es'
unfolding run
run-append [] es' d = refl
run-append (e ∷ es) es' d = run-append es es' (step d e)

since_key :
    (d : Device) (new : List Event) (inb : ℕ)
    → All IsKeyboard new
    → let u = run d (interrupt irq_no inb ∷ new) in
      (u.code_1 ≡ latest inb new) × (u.code_2 ≡ latest inb new) × IsCurrent u
unfolding run step my_irq_handler
since_key d new inb k =
    let (a, b) = run-latest new (step d (interrupt irq_no inb)) inb refl refl in
    (a, b, stays-IsCurrent new (step d (interrupt irq_no inb)) k (key-IsCurrent inb d))

-- Whatever the device holds and has been through, once a key has come: as long as no interrupt of
-- another number comes behind it, in every order of further keys and runs of the work, the latest
-- key is not lost. It is the code that is stored for both functions, and each of them has shown it,
-- or is still to run.
pub run-IsCurrent :
    (d : Device) (old new : List Event) (inb : ℕ)
    → All IsKeyboard new
    → let u = run d (old ++ (interrupt irq_no inb ∷ new)) in
      (u.code_1 ≡ latest inb new) × (u.code_2 ≡ latest inb new) × IsCurrent u
run-IsCurrent d old new inb k =
    rw (run-append old (interrupt irq_no inb ∷ new) d) (since_key (run d old) new inb k)

Shows-unique : {a b : ℕ} (log : List Shown) → Shows a log → Shows b log → a ≡ b
Shows-unique [] p q = absurd p
Shows-unique (s ∷ log) p q = omega arith

-- An interrupt of another number is refused, but has stored its code by then: a device that was
-- current, had the first work not queued and gets a new code is not current any more.
pub foreign_irq-stale :
    (irq inb : ℕ) (d : Device)
    → irq ≢ irq_no
    → d.queued_1 ≡ false
    → IsCurrent d
    → inb ≢ d.code_1
    → ¬ IsCurrent (my_irq_handler irq inb d).1
unfolding my_irq_handler
foreign_irq-stale irq inb d ne idle c new c' =
    new (Shows-unique d.log_1 (shown inb kept.first) (shown d.code_1 c.first))
  where
    kept : IsCurrent (record d { code_1 = inb; code_2 = inb })
    kept = rw (ne→== irq irq_no ne) at c'

    shown : (x : ℕ) → (d.queued_1 ≡ true) ⊎ Shows x d.log_1 → Shows x d.log_1
    shown x (inl h) = ground (arith, idle)
    shown x (inr s) = s
