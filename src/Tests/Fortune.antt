-- ===== src/Tests/Fortune.antt =====
-- The device of fortune.c with a page of 16 bytes.
use sem_os.Base.{◌+◌, ◌<◌, ◌≡◌, refl, arith, [], ◌∷◌, ◌++◌, none, some, length, replicate, pos}
use sem_os.Memory.{CopyIn, IsText}
use sem_os.Fortune.Device.{Fortune, fortune_write, init_device}
use sem_os.Fortune.Jar.{Cookie, add, next, Represents}
use sem_os.Fortune.Read.{line, jar, Delivers, read_refines}
use sem_os.Fortune.Write.{write_refines, write_overflows}
use sem_os.Fortune.Session.{init_device-Represents, session, session_roundtrip}

-- A copy that succeeds, and one that fails.
abbrev copies : CopyIn
copies = record {
  stored = λ buf. buf;
  left = λ buf. 0;
  copied = λ buf e. refl;
  fits = λ buf. omega arith;
}

abbrev fails : CopyIn
fails = record {
  stored = λ buf. [];
  left = λ buf. 1;
  copied = λ buf e. absurd (omega arith);
  fits = λ buf. omega arith;
}

-- "hi"
abbrev hi : Cookie
hi = 104 ∷ 105 ∷ []

hi-IsText : IsText hi
hi-IsText = (λ e. absurd (omega arith), (λ e. absurd (omega arith), tt))

fresh : Represents 16 (init_device 16) (jar [] [])
fresh = init_device-Represents 16 (omega arith)

write_ind-fresh : (init_device 16).write_ind ≡ 0
write_ind-fresh = fresh.writes

write_refines_example :
    (d' : Fortune) × (fortune_write copies 16 (hi ++ (10 ∷ [])) (init_device 16)
      ≡ some (pos (length hi + 1), d'))
    × Represents 16 d' (add (jar [] []) hi)
write_refines_example =
    write_refines copies 16 (init_device 16) (jar [] []) hi 10 fresh hi-IsText refl
      (omega (arith, write_ind-fresh))

write_overflows_example : fortune_write copies 16 (replicate 17 65) (init_device 16) ≡ none
write_overflows_example =
    write_overflows copies 16 (init_device 16) (jar [] []) (replicate 17 65) fresh refl
      (omega (arith, write_ind-fresh))

-- The device after the write of "hi".
written :
    (d : Fortune) × (fortune_write copies 16 (hi ++ (10 ∷ [])) (init_device 16)
      ≡ some (pos (length hi + 1), d))
    × Represents 16 d (add (jar [] []) hi)
written =
    write_refines copies 16 (init_device 16) (jar [] []) hi 10 fresh hi-IsText refl
      (omega (arith, write_ind-fresh))

written-room : written.0.write_ind < 16
unfolding add
written-room = omega (arith, written.2.writes)

read_refines_example : Delivers 16 written.0 (next (add (jar [] []) hi))
read_refines_example = read_refines 16 written.0 (add (jar [] []) hi) written.2 written-room

session_roundtrip_example :
    session copies 16 (hi ∷ (72 ∷ []) ∷ hi ∷ []) ≡ some (line hi ∷ line (72 ∷ []) ∷ line hi ∷ [])
session_roundtrip_example =
    session_roundtrip copies 16 (hi ∷ (72 ∷ []) ∷ hi ∷ []) (omega arith) (λ buf. refl)
      (hi-IsText, ((λ e. absurd (omega arith), tt), (hi-IsText, tt))) (omega arith)
