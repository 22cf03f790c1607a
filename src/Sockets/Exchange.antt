-- ===== src/Sockets/Exchange.antt =====
-- The exchange of the parent and the child of 2/paired-sockets/main.c.
use sem_os.Base.{
  ◌+◌, ℕ, ◌≡◌, refl, ap, Bool, true, false, Option, List, [], ◌∷◌, ◌++◌, drop, ◌⊎◌, inl, inr, arith,
}
use sem_os.Memory.{c_string}
use sem_os.Sockets.Pair.{
  message_0, message_1, Line, sent, received, exited_with, report, Child, Parent, System, forked,
  main, fill, Step, Reach, start, later, ReachFrom,
}

-- The texts, as "%s" prints them.
abbrev pub text_0 : Option (List ℕ)
text_0 = c_string message_0

abbrev pub text_1 : Option (List ℕ)
text_1 = c_string message_1

-- What a process has printed when it comes to a point.
abbrev pub child_lines : Child → List Line
child_lines Child.writing = []
child_lines Child.reading = sent text_0 ∷ []
child_lines Child.exited = sent text_0 ∷ received text_1 ∷ []

abbrev pub parent_lines : Parent → List Line
parent_lines Parent.reading = []
parent_lines Parent.writing = received text_0 ∷ []
parent_lines Parent.waiting = received text_0 ∷ sent text_1 ∷ []
parent_lines Parent.ended = received text_0 ∷ sent text_1 ∷ exited_with 0 ∷ []

-- What is in the streams at each point of the two processes.
abbrev Streams : Child → Parent → System → Type 0
Streams Child.writing Parent.reading s = (s.to_parent ≡ []) × (s.to_child ≡ [])
Streams Child.reading Parent.reading s = (s.to_parent ≡ message_0) × (s.to_child ≡ [])
Streams Child.reading Parent.writing s = (s.to_parent ≡ []) × (s.to_child ≡ [])
Streams Child.reading Parent.waiting s = (s.to_parent ≡ []) × (s.to_child ≡ message_1)
Streams Child.exited Parent.waiting s = (s.to_parent ≡ []) × (s.to_child ≡ [])
Streams Child.exited Parent.ended s = (s.to_parent ≡ []) × (s.to_child ≡ [])
Streams _ _ s = ⊥

record Keeps (s : System) : Type 0 where
  streams : Streams s.child s.parent s
  child_said : s.child_out ≡ child_lines s.child
  parent_said : s.parent_out ≡ parent_lines s.parent

-- What a read of a whole message leaves in the array is printed as its text.
c_string-fill_0 : (d : List ℕ) → c_string (fill 10 message_0 d) ≡ text_0
unfolding c_string
c_string-fill_0 d = refl

c_string-fill_1 : (c : List ℕ) → c_string (fill 9 message_1 c) ≡ text_1
unfolding c_string
c_string-fill_1 c = refl

step-Keeps : {s t : System} → Step s t → Keeps s → Keeps t
unfolding report
step-Keeps (Step.child_writes {p = Parent.reading}) k = record {
  streams = (ap (λ u. u ++ message_0) k.streams.0, k.streams.1);
  child_said = ap (λ o. o ++ (sent text_0 ∷ [])) k.child_said;
  parent_said = k.parent_said;
}
step-Keeps (Step.child_writes {p = Parent.writing}) k = absurd k.streams
step-Keeps (Step.child_writes {p = Parent.waiting}) k = absurd k.streams
step-Keeps (Step.child_writes {p = Parent.ended}) k = absurd k.streams
step-Keeps (Step.child_reads {p = Parent.reading} h) k = absurd (h k.streams.1)
step-Keeps (Step.child_reads {p = Parent.writing} h) k = absurd (h k.streams.1)
step-Keeps (Step.child_reads {p = Parent.waiting} {down = down} {c = c} h) k = record {
  streams = (k.streams.0, ap (drop 9) k.streams.1);
  child_said = rw (k.child_said, k.streams.1, c_string-fill_1 c) refl;
  parent_said = k.parent_said;
}
step-Keeps (Step.child_reads {p = Parent.ended} h) k = absurd k.streams
step-Keeps (Step.parent_reads {k = Child.writing} h) k = absurd (h k.streams.0)
step-Keeps (Step.parent_reads {k = Child.reading} {d = d} h) k = record {
  streams = (ap (drop 10) k.streams.0, k.streams.1);
  child_said = k.child_said;
  parent_said = rw (k.parent_said, k.streams.0, c_string-fill_0 d) refl;
}
step-Keeps (Step.parent_reads {k = Child.exited} h) k = absurd k.streams
step-Keeps (Step.parent_writes {k = Child.writing}) k = absurd k.streams
step-Keeps (Step.parent_writes {k = Child.reading}) k = record {
  streams = (k.streams.0, ap (λ u. u ++ message_1) k.streams.1);
  child_said = k.child_said;
  parent_said = ap (λ o. o ++ (sent text_1 ∷ [])) k.parent_said;
}
step-Keeps (Step.parent_writes {k = Child.exited}) k = absurd k.streams
step-Keeps Step.parent_waits k = record {
  streams = k.streams;
  child_said = k.child_said;
  parent_said = ap (λ o. o ++ (exited_with 0 ∷ [])) k.parent_said;
}

reach-Keeps : {s t : System} → Reach s t → Keeps s → Keeps t
reach-Keeps start k = k
reach-Keeps (later r h) k = step-Keeps h (reach-Keeps r k)

-- How many steps the two have before them.
abbrev pub child_left : Child → ℕ
child_left Child.writing = 2
child_left Child.reading = 1
child_left Child.exited = 0

abbrev pub parent_left : Parent → ℕ
parent_left Parent.reading = 3
parent_left Parent.writing = 2
parent_left Parent.waiting = 1
parent_left Parent.ended = 0

abbrev pub left : System → ℕ
left s = child_left s.child + parent_left s.parent

-- Both processes are through; each has sent its text, has received that of the other, and has
-- printed this, and the parent that the child has exited with 0.
pub record HasExchanged (s : System) : Type 0 where
  pub child_exited : s.child ≡ Child.exited
  pub parent_ended : s.parent ≡ Parent.ended
  pub child_said : s.child_out ≡ sent text_0 ∷ received text_1 ∷ []
  pub parent_said : s.parent_out ≡ received text_0 ∷ sent text_1 ∷ exited_with 0 ∷ []

step-left : {s t : System} → Step s t → left t + 1 ≡ left s
step-left Step.child_writes = omega arith
step-left (Step.child_reads h) = omega arith
step-left (Step.parent_reads h) = omega arith
step-left Step.parent_writes = omega arith
step-left Step.parent_waits = omega arith

stream_set : (x : ℕ) (xs : List ℕ) {u : List ℕ} → u ≡ x ∷ xs → u ≡ [] → ⊥
stream_set x xs e n = absurd cc

goes_on :
    (k : Child) (p : Parent) (up down c d : List ℕ) (co po : List Line)
    → let s : System = record {
      child = k;
      parent = p;
      to_parent = up;
      to_child = down;
      child_buf = c;
      parent_buf = d;
      child_out = co;
      parent_out = po;
    } in
      Keeps s → HasExchanged s ⊎ ((t : System) × Step s t)
goes_on Child.writing Parent.reading up down c d co po k = inr (_, Step.child_writes)
goes_on Child.reading Parent.reading up down c d co po k =
    inr (_, Step.parent_reads (stream_set _ _ k.streams.0))
goes_on Child.reading Parent.writing up down c d co po k = inr (_, Step.parent_writes)
goes_on Child.reading Parent.waiting up down c d co po k =
    inr (_, Step.child_reads (stream_set _ _ k.streams.1))
goes_on Child.exited Parent.waiting up down c d co po k = inr (_, Step.parent_waits)
goes_on Child.exited Parent.ended up down c d co po k = inl (record {
  child_exited = refl;
  parent_ended = refl;
  child_said = k.child_said;
  parent_said = k.parent_said;
})
goes_on Child.writing Parent.writing up down c d co po k = absurd k.streams
goes_on Child.writing Parent.waiting up down c d co po k = absurd k.streams
goes_on Child.writing Parent.ended up down c d co po k = absurd k.streams
goes_on Child.reading Parent.ended up down c d co po k = absurd k.streams
goes_on Child.exited Parent.reading up down c d co po k = absurd k.streams
goes_on Child.exited Parent.writing up down c d co po k = absurd k.streams

forked-Keeps : (c d : List ℕ) → Keeps (forked c d)
forked-Keeps c d = record { streams = (refl, refl); child_said = refl; parent_said = refl }

main-Keeps :
    (socketpair_ok fork_ok : Bool) (c d : List ℕ) (s : System)
    → ReachFrom (main socketpair_ok fork_ok c d) s
    → Keeps s
unfolding main
main-Keeps true true c d s r = reach-Keeps r (forked-Keeps c d)
main-Keeps true false c d s r = absurd r
main-Keeps false fork_ok c d s r = absurd r

-- If `socketpair` and `fork` succeed, the parent and the child never wait for each other for good: from
-- every state that they come to, either both are through, and each has printed its own text and that
-- of the other, and the parent that the child has exited with 0, or one of them can go on; and each
-- step brings them nearer to the end, of which the start is five steps away.
pub pair-exchanges :
    (socketpair_ok fork_ok : Bool) (c d : List ℕ) (s : System)
    → ReachFrom (main socketpair_ok fork_ok c d) s
    → (HasExchanged s ⊎ ((t : System) × Step s t))
      × ((t : System) → Step s t → left t + 1 ≡ left s)
      × (left (forked c d) ≡ 5)
pair-exchanges socketpair_ok fork_ok c d s r = (
  goes_on s.child s.parent s.to_parent s.to_child s.child_buf s.parent_buf s.child_out s.parent_out
      (main-Keeps socketpair_ok fork_ok c d s r),
  (λ t h. step-left h),
  refl,
)
