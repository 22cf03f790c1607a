-- ===== src/Tasklet/Handler.antt =====
-- `my_irq_handler` and `my_tasklet_fun` of 9/interrupts/tasklet/tasklet.c, in any order of
-- interrupts and of the kernel's runs of the tasklet.
use Prim.Native.String.{String}
use sem_os.Base.{
  ℕ, ◌≢◌, Bool, true, false, not, ◌&&◌, List, [], ◌∷◌, ◌++◌, Option, none, get_elem?, arith, ltb,
  ◌==◌, if◌then◌else◌, Bool-cases, inl, inr, All, All-append, get_elem?-ne_none,
}
use sem_os.Tasklet.Keys.{ascii, length-ascii}

-- `tasklet->data`, and whether the kernel has the tasklet scheduled, and runs it.
pub record Device : Type 0 where
  pub code : ℕ
  pub scheduled : Bool
  pub running : Bool

pub data IrqReturn : Type 0 where
  irq_handled irq_none : IrqReturn

abbrev pub irq_no : ℕ
irq_no = 1

-- `inb` is what the keyboard's port holds. To schedule a scheduled tasklet again has no effect.
unfoldable pub my_irq_handler : (irq inb : ℕ) → Device → IrqReturn × Device
my_irq_handler irq inb d =
    if irq == irq_no
    then (irq_handled, record d { code = inb; scheduled = true })
    else (irq_none, d)

-- What the log shows of a run: a name of the table, `none` for a read past its end.
unfoldable pub my_tasklet_fun : ℕ → List (Option String)
my_tasklet_fun code = if ltb code 84 then get_elem? ascii code ∷ [] else []

-- The kernel begins a run, where it marks the tasklet as not scheduled; and calls its function with
-- `tasklet->data`. An interrupt can come in between.
pub data Event : Type 0 where
  interrupt : (irq inb : ℕ) → Event
  softirq : Event
  call : Event

unfoldable pub step : Device → Event → Device × List (Option String)
unfolding my_irq_handler
step d (interrupt irq inb) = ((my_irq_handler irq inb d).1, [])
step d softirq =
    if d.scheduled && not d.running
    then (record d { scheduled = false; running = true }, [])
    else (d, [])
step d call = if d.running then (record d { running = false }, my_tasklet_fun d.code) else (d, [])

unfoldable pub trace : Device → List Event → List (Option String)
trace d [] = []
trace d (e ∷ es) = (step d e).1 ++ trace (step d e).0 es

unfoldable pub after : Device → List Event → Device
after d [] = d
after d (e ∷ es) = after (step d e).0 es

abbrev pub IsName : Option String → Type 0
IsName o = o ≢ none

my_tasklet_fun-IsName : (code : ℕ) → All IsName (my_tasklet_fun code)
unfolding my_tasklet_fun
my_tasklet_fun-IsName code = elim (Bool-cases (ltb code 84)) [
  | inl h ↦ rw h (get_elem?-ne_none ascii code (ground (arith, length-ascii)), tt)
  | inr h ↦ rw h tt
]

step-IsName : (d : Device) (e : Event) → All IsName (step d e).1
unfolding step
step-IsName d (interrupt irq inb) = tt
step-IsName d softirq = elim (Bool-cases (d.scheduled && not d.running)) [
  | inl h ↦ rw h tt
  | inr h ↦ rw h tt
]
step-IsName d call = elim (Bool-cases d.running) [
  | inl h ↦ rw h (my_tasklet_fun-IsName d.code)
  | inr h ↦ rw h tt
]

-- The table is never read past its end, whatever codes the port holds.
pub trace-IsName : (d : Device) (es : List Event) → All IsName (trace d es)
unfolding trace
trace-IsName d [] = tt
trace-IsName d (e ∷ es) =
    All-append IsName (step d e).1 (trace (step d e).0 es) (step-IsName d e)
      (trace-IsName (step d e).0 es)
