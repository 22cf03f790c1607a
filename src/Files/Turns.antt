-- ===== src/Files/Turns.antt =====
-- 8/open_file/src/2_1.c: one thread writes to two descriptors with O_APPEND in turn, and prints the
-- size of the file after each call.
use sem_os.Base.{
  sizes, ℕ, ◌+◌, ◌%◌, ◌≡◌, refl, sym, ap, ◌∙◌, List, [], ◌∷◌, ◌++◌, append_assoc, append-nil,
  length, ◌==◌, if◌then◌else◌, arith,
}

-- The offsets of the two descriptors, and the file.
pub record Files : Type 0 where
  pub fd₁ : ℕ
  pub fd₂ : ℕ
  pub contents : List ℕ

-- `write` with O_APPEND: to the end of the file, where the offset is then.
unfoldable pub write : List ℕ → ℕ → ℕ × List ℕ
write contents c = (length contents + 1, contents ++ (c ∷ []))

unfoldable pub turn : ℕ → Files → Files
unfolding write
turn c f =
    let (offset, contents) = write f.contents c in
    if c % 2 == 0
    then record f { fd₂ = offset; contents = contents }
    else record f { fd₁ = offset; contents = contents }

-- The loop over the letters: what is printed, and the file behind it.
unfoldable pub turns : List ℕ → Files → List ℕ × Files
unfolding turn
turns [] f = ([], f)
turns (c ∷ cs) f =
    let f' = turn c f in let (shown, g) = turns cs f' in (length f'.contents ∷ shown, g)

-- The sizes after the two `open`, those of the loop, and those after the two `close`.
unfoldable pub main : (cs old : List ℕ) → List ℕ × List ℕ
unfolding turns
main cs old =
    let (shown, f) = turns cs (record { fd₁ = 0; fd₂ = 0; contents = old }) in
    let n = length f.contents in (length old ∷ length old ∷ (shown ++ (n ∷ n ∷ [])), f.contents)

-- The numbers that follow a number, so many.
abbrev pub counted : ℕ → List ℕ → List ℕ
counted n [] = []
counted n (c ∷ cs) = (n + 1) ∷ counted (n + 1) cs

turn-contents : (c : ℕ) (f : Files) → (turn c f).contents ≡ f.contents ++ (c ∷ [])
unfolding turn write
turn-contents c f = ground arith

turns_lem :
    (cs : List ℕ) (f : Files)
    → ((turns cs f).0 ≡ counted (length f.contents) cs)
      × ((turns cs f).1.contents ≡ f.contents ++ cs)
unfolding turns
turns_lem [] f = (refl, sym (append-nil f.contents))
turns_lem (c ∷ cs) f =
    let (shown, after) = turns_lem cs (turn c f) in
    let longer : length (turn c f).contents ≡ length f.contents + 1 =
      ap length (turn-contents c f) ∙ omega sizes in
    (
      rw (shown, longer) refl,
      after ∙ ap (λ x. x ++ cs) (turn-contents c f) ∙ append_assoc f.contents (c ∷ []) cs,
    )

-- The letters go to the end of the file in their order, and the size that is printed goes up by one
-- with each of them.
pub main_lem :
    (cs old : List ℕ)
    → main cs old ≡ (
      length old
          ∷ length old
          ∷ (counted (length old) cs ++ ((length old + length cs) ∷ (length old + length cs) ∷ [])),
      old ++ cs,
    )
unfolding main
main_lem cs old =
    let (shown, after) = turns_lem cs (record { fd₁ = 0; fd₂ = 0; contents = old }) in
    let whole : length (old ++ cs) ≡ length old + length cs = omega sizes in
    rw (shown, after, whole) refl
