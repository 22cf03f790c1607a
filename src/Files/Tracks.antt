-- ===== src/Files/Tracks.antt =====
-- What a thread of 8/open_file/src/2_thread.c has written, held and left, at each of its points.
use sem_os.Base.{
  sizes, ℕ, ◌+◌, ◌≡◌, refl, sym, ◌∙◌, ap, Bool, true, false, Option, none, some, List, [], ◌∷◌,
  ◌++◌, append_assoc, append-nil, length,
}
use sem_os.Files.Readers.{read, read-here, read-end}
use sem_os.Files.Racers.{State, reading, holding, returned, Thread}

-- What a thread has written.
abbrev pub written : Bool → List (Bool × ℕ) → List ℕ
written i [] = []
written false ((false, c) ∷ out) = c ∷ written false out
written false ((true, c) ∷ out) = written false out
written true ((false, c) ∷ out) = written true out
written true ((true, c) ∷ out) = c ∷ written true out

abbrev flip : Bool → Bool
flip false = true
flip true = false

pub written-own :
    (i : Bool) (c : ℕ) (out : List (Bool × ℕ))
    → written i (out ++ ((i, c) ∷ [])) ≡ written i out ++ (c ∷ [])
written-own false c [] = refl
written-own true c [] = refl
written-own false c ((false, x) ∷ out) = ap (λ l. x ∷ l) (written-own false c out)
written-own false c ((true, x) ∷ out) = written-own false c out
written-own true c ((false, x) ∷ out) = written-own true c out
written-own true c ((true, x) ∷ out) = ap (λ l. x ∷ l) (written-own true c out)

pub written-other :
    (i : Bool) (c : ℕ) (out : List (Bool × ℕ))
    → written (flip i) (out ++ ((i, c) ∷ [])) ≡ written (flip i) out
written-other false c [] = refl
written-other true c [] = refl
written-other false c ((false, x) ∷ out) = written-other false c out
written-other false c ((true, x) ∷ out) = ap (λ l. x ∷ l) (written-other false c out)
written-other true c ((false, x) ∷ out) = ap (λ l. x ∷ l) (written-other true c out)
written-other true c ((true, x) ∷ out) = written-other true c out

abbrev pub pending : State → List ℕ
pending reading = []
pending (holding c) = c ∷ []
pending returned = []

-- A thread that has written `done`: what it holds and what is left behind its offset make up the file.
pub record Tracks (contents done : List ℕ) (t : Thread) : Type 0 where
  pub rest : List ℕ
  pub whole : contents ≡ done ++ (pending t.state ++ rest)
  pub at : t.offset ≡ length (done ++ pending t.state)
  pub finished : t.state ≡ returned → rest ≡ []

-- A `read` behind `done` takes the first byte of the rest.
pub read_next :
    (done rest : List ℕ) {c o : ℕ}
    → read (done ++ rest) (length done) ≡ (some c, o)
    → (r : List ℕ) × (rest ≡ c ∷ r) × (o ≡ length done + 1)
read_next done [] e = absurd (not_some (sym (read-end done) ∙ e))
  where
    not_some : {c o n : ℕ} → ◌≡◌ {A = Option ℕ × ℕ} (none, n) (some c, o) → ⊥
    not_some e = absurd cc
read_next done (x ∷ rest) e =
    let same = sym (read-here done x rest) ∙ e in
    (rest, ap (λ y. y ∷ rest) (some_injective (ap (λ p. p.0) same)), sym (ap (λ p. p.1) same))
  where
    some_injective : {x y : ℕ} → some x ≡ some y → x ≡ y
    some_injective e = cc

-- And none if there is no rest.
pub read_past :
    (done rest : List ℕ) {o : ℕ}
    → read (done ++ rest) (length done) ≡ (none, o)
    → (rest ≡ []) × (o ≡ length done)
read_past done [] e = (refl, sym (ap (λ p. p.1) (sym (read-end done) ∙ e)))
read_past done (x ∷ rest) e = absurd (not_none (sym (read-here done x rest) ∙ e))
  where
    not_none : {c o n : ℕ} → ◌≡◌ {A = Option ℕ × ℕ} (some c, n) (none, o) → ⊥
    not_none e = absurd cc

module _ {contents done : List ℕ} {t : Thread} (k : Tracks contents done t) where
  -- A thread that holds nothing is right behind what it has written.
  pub between : t.state ≡ reading → (contents ≡ done ++ k.rest) × (t.offset ≡ length done)
  between e = (
    k.whole ∙ ap (λ p. done ++ (pending p ++ k.rest)) e,
    k.at ∙ ap (λ p. length (done ++ pending p)) e ∙ ap length (append-nil done),
  )

  pub read_there :
      {o : Option ℕ × ℕ}
      → t.state ≡ reading
      → read contents t.offset ≡ o
      → read (done ++ k.rest) (length done) ≡ o
  read_there e g = let (w, a) = between e in rw (← w, ← a) g

  pub read-Tracks :
      {c o : ℕ}
      → t.state ≡ reading
      → read contents t.offset ≡ (some c, o)
      → Tracks contents done (record { offset = o; state = holding c })
  read-Tracks {c} {o} e g =
      let (r, s, n) = read_next done k.rest (read_there e g) in
      record {
        rest = r;
        whole = (between e).0 ∙ ap (λ x. done ++ x) s;
        at = omega (sizes, n);
        finished = λ h. absurd cc;
      }

  pub end-Tracks :
      {o : ℕ}
      → t.state ≡ reading
      → read contents t.offset ≡ (none, o)
      → Tracks contents done (record { offset = o; state = returned })
  end-Tracks e g =
      let (s, n) = read_past done k.rest (read_there e g) in
      record {
        rest = k.rest;
        whole = (between e).0;
        at = n ∙ ap length (sym (append-nil done));
        finished = λ h. s;
      }

  pub write-Tracks :
      {c : ℕ}
      → t.state ≡ holding c
      → Tracks contents (done ++ (c ∷ [])) (record { offset = t.offset; state = reading })
  write-Tracks {c} e = record {
    rest = k.rest;
    whole =
        k.whole
        ∙ ap (λ p. done ++ (pending p ++ k.rest)) e
        ∙ sym (append_assoc done (c ∷ []) k.rest);
    at =
        k.at
        ∙ ap (λ p. length (done ++ pending p)) e
        ∙ ap length (sym (append-nil (done ++ (c ∷ []))));
    finished = λ h. absurd cc;
  }
