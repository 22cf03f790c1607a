-- ===== src/Tasklet/Keys.antt =====
-- The scan-code table of 9/interrupts/tasklet/tasklet.c and 9/interrupts/workqueue/mywq.c, which
-- hold the same 84 names.
use Prim.Native.String.{String}
use sem_os.Base.{◌≡◌, List, [], ◌∷◌, length, refl}

pub ascii : List String
ascii =
    " " ∷ "Esc" ∷ "1" ∷ "2" ∷ "3" ∷ "4" ∷ "5" ∷ "6" ∷ "7" ∷ "8" ∷ "9" ∷ "0" ∷ "-" ∷ "+"
    ∷ "Backspace" ∷ "Tab" ∷ "Q" ∷ "W" ∷ "E" ∷ "R" ∷ "T" ∷ "Y" ∷ "U" ∷ "I" ∷ "O" ∷ "P" ∷ "[" ∷ "]"
    ∷ "Enter" ∷ "Ctrl" ∷ "A" ∷ "S" ∷ "D" ∷ "F" ∷ "G" ∷ "H" ∷ "J" ∷ "K" ∷ "L" ∷ ";" ∷ "\"" ∷ "'"
    ∷ "Shift (left)" ∷ "|" ∷ "Z" ∷ "X" ∷ "C" ∷ "V" ∷ "B" ∷ "N" ∷ "M" ∷ "<" ∷ ">" ∷ "?"
    ∷ "Shift (right)" ∷ "*" ∷ "Alt" ∷ "Space" ∷ "CapsLock" ∷ "F1" ∷ "F2" ∷ "F3" ∷ "F4" ∷ "F5" ∷ "F6"
    ∷ "F7" ∷ "F8" ∷ "F9" ∷ "F10" ∷ "NumLock" ∷ "ScrollLock" ∷ "Home" ∷ "Up" ∷ "Page-Up" ∷ "-"
    ∷ "Left" ∷ " " ∷ "Right" ∷ "+" ∷ "End" ∷ "Down" ∷ "Page-Down" ∷ "Insert" ∷ "Delete" ∷ []

pub length-ascii : length ascii ≡ 84
unfolding ascii
length-ascii = refl
