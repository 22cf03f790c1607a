-- ===== src/Tasklet/Samples.antt =====
-- Which keys the tasklet of 9/interrupts/tasklet/tasklet.c shows.
use Prim.Native.String.{String}
use native.Mathlib.Decide.{ℕ_discrete}
use sem_os.Base.{
  ℕ, zero, suc, ◌+◌, ◌≤◌, ◌≡◌, ◌≢◌, ◌⊎◌, inl, inr, refl, sym, Bool, true, false, not, ◌&&◌, ◌||◌,
  List, [], ◌∷◌, ◌++◌, length, Option, none, some, get_elem?, get_elem?-ne_none, arith, ltb, ◌==◌,
  if◌then◌else◌, Bool-cases, ne→==,
}
use sem_os.Tasklet.Keys.{ascii, length-ascii}
use sem_os.Tasklet.Handler.{
  Device, irq_no, my_irq_handler, my_tasklet_fun, Event, interrupt, softirq, call, step, trace,
  after,
}

-- The names of some keys, of those that the table has.
abbrev pub named : Option String → List (Option String)
named none = []
named (some n) = some n ∷ []

abbrev pub names : List ℕ → List (Option String)
names [] = []
names (c ∷ cs) = named (get_elem? ascii c) ++ names cs

-- The codes that come from the keyboard.
abbrev pub keys : List Event → List ℕ
keys [] = []
keys (interrupt irq inb ∷ es) = if irq == irq_no then inb ∷ keys es else keys es
keys (softirq ∷ es) = keys es
keys (call ∷ es) = keys es

-- Of the code `code`, at most so many times, and then of each key, at most twice, in their order.
pub data Sampled : (times code : ℕ) → (keys shown : List ℕ) → Type 0 where
  stop : {times code : ℕ} → Sampled times code [] []
  again :
      {times code : ℕ} {ks shown : List ℕ}
      → Sampled times code ks shown
      → Sampled (suc times) code ks (code ∷ shown)
  next :
      {times code k : ℕ} {ks shown : List ℕ}
      → Sampled 2 k ks shown
      → Sampled times code (k ∷ ks) shown

abbrev pub latest : Option ℕ → List ℕ → Option ℕ
latest last [] = last
latest last (k ∷ ks) = latest (some k) ks

abbrev pub waits : Device → Bool
waits d = d.scheduled || d.running

abbrev one : Bool → ℕ
one true = 1
one false = 0

-- How often the code that is stored can still be shown.
abbrev due : Device → ℕ
due d = one d.scheduled + one d.running

-- Keys that a run through some events shows: their names are what is logged, each of the keys that
-- come is shown at most twice, in their order, and where the tasklet does not wait at the end, the
-- latest key is the latest that is shown. `x` and `y` are what was shown and what came before.
pub record Samples (d : Device) (es : List Event) (x y : Option ℕ) : Type 0 where
  pub shown : List ℕ
  pub logged : trace d es ≡ names shown
  pub sampled : Sampled (due d) d.code (keys es) shown
  pub kept : (waits (after d es) ≡ true) ⊎ (latest x shown ≡ latest y (keys es))

get_elem?-behind : (xs : List String) (i : ℕ) → length xs ≤ i → get_elem? xs i ≡ none
get_elem?-behind [] i h = refl
get_elem?-behind (x ∷ xs) zero h = absurd (omega arith)
get_elem?-behind (x ∷ xs) (suc i) h = get_elem?-behind xs i (omega arith)

named_some : (o : Option String) → o ≢ none → o ∷ [] ≡ named o
named_some none n = absurd (n refl)
named_some (some s) n = refl

my_tasklet_fun-named : (code : ℕ) → my_tasklet_fun code ≡ named (get_elem? ascii code)
unfolding my_tasklet_fun
my_tasklet_fun-named code = elim (Bool-cases (ltb code 84)) [
  | inl h ↦ rw h (
      named_some (get_elem? ascii code)
        (get_elem?-ne_none ascii code (ground (arith, length-ascii))))
  | inr h ↦ rw (h, get_elem?-behind ascii code (ground (arith, length-ascii))) refl
]

more_times :
    {n m code : ℕ} {ks shown : List ℕ} → n ≤ m → Sampled n code ks shown → Sampled m code ks shown
more_times h stop = stop
more_times {m = zero} h (again s) = absurd (omega arith)
more_times {m = suc m} h (again s) = again (more_times (omega arith) s)
more_times h (next s) = next s

module _ (es : List Event) {x : Option ℕ} where
  key_comes :
      (inb : ℕ) {d : Device} {y : Option ℕ}
      → Samples (record d { code = inb; scheduled = true }) es x (some inb)
      → Samples d (interrupt irq_no inb ∷ es) x y
  unfolding trace step after my_irq_handler
  key_comes inb {d} r = record {
    shown = r.shown;
    logged = r.logged;
    sampled = next (more_times (ground arith) r.sampled);
    kept = r.kept;
  }

  begins :
      {d : Device} {y : Option ℕ}
      → d.scheduled ≡ true
      → d.running ≡ false
      → Samples (record d { scheduled = false; running = true }) es x y
      → Samples d (softirq ∷ es) x y
  unfolding trace step after
  begins s u r = record {
    shown = r.shown;
    logged = rw (s, u) r.logged;
    sampled = more_times (ground arith) r.sampled;
    kept = rw (s, u) r.kept;
  }

  ends :
      {d : Device} {y : Option ℕ}
      → d.running ≡ true
      → Samples (record d { running = false }) es (some d.code) y
      → Samples d (call ∷ es) x y
  unfolding trace step after
  ends {d} u r = record {
    shown = d.code ∷ r.shown;
    logged = rw u (rw (my_tasklet_fun-named d.code, r.logged) refl);
    sampled = more_times {n = suc (one d.scheduled + 0)} (ground arith) (again r.sampled);
    kept = rw u r.kept;
  }

-- An event that changes nothing.
idle :
    (e : Event) (es : List Event) {d : Device} {x y : Option ℕ}
    → step d e ≡ (d, [])
    → keys (e ∷ es) ≡ keys es
    → Samples d es x y
    → Samples d (e ∷ es) x y
unfolding trace after
idle e es s k r = record {
  shown = r.shown;
  logged = rw s r.logged;
  sampled = rw k r.sampled;
  kept = rw (after, s, k) r.kept;
}

samples :
    (es : List Event) (d : Device) (x y : Option ℕ)
    → (waits d ≡ true → y ≡ some d.code)
    → (waits d ≡ true) ⊎ (x ≡ y)
    → Samples d es x y
unfolding trace step after my_irq_handler
samples [] d x y h k = record { shown = []; logged = refl; sampled = stop; kept = k }
samples (interrupt irq inb ∷ es) d x y h k = elim (ℕ_discrete irq irq_no) [
  | yes e ↦ rw e (key_comes es inb (samples es _ x (some inb) (λ w. refl) (inl (ground arith))))
  | no n ↦
      let other = ne→== irq irq_no n in
      idle (interrupt irq inb) es (rw other refl) (rw other refl) (samples es d x y h k)
]
samples (softirq ∷ es) d x y h k = elim (Bool-cases (d.scheduled && not d.running)) [
  | inl e ↦
      begins es (ground arith) (ground arith) (samples es _ x y (λ w. h (ground arith)) (inl refl))
  | inr e ↦ idle softirq es (rw e refl) refl (samples es d x y h k)
]
samples (call ∷ es) d x y h k = elim (Bool-cases d.running) [
  | inl e ↦
      ends es e
        (samples es _ (some d.code) y (λ w. h (ground arith)) (inr (sym (h (ground arith)))))
  | inr e ↦ idle call es (rw e refl) refl (samples es d x y h k)
]

-- In every order of interrupts, begins of runs and calls of the function, where an interrupt can
-- come between the two: what is logged are the names of keys that have come since the module was
-- loaded, in their order, each at most twice, without those that the table has no name for; and
-- unless the tasklet is scheduled or runs, the latest key is the latest that was shown.
pub trace_refines :
    (code : ℕ) (es : List Event)
    → let d : Device = record { code = code; scheduled = false; running = false } in
      Samples d es none none
trace_refines code es = samples es _ none none (λ w. cc) (inr refl)
