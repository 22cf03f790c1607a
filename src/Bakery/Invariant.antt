-- ===== src/Bakery/Invariant.antt =====
-- What holds in every reachable state of the bakery server.
mod Defs
mod Moves
pub use Defs.*
pub use Moves.{Step-Inv, at_main, Walk-pending, Walk-ticketed}
use sem_os.Base.{refl, arith, ◌≡◌}
use sem_os.Bakery.System.{System, init, Reach, start, later}

init-Inv : Inv init
init-Inv = record {
  few = omega arith;
  unused = λ j h. (refl, refl);
  bound = λ j. omega arith;
  ordered = λ i j h n m. absurd (n refl);
  alive = λ p a. cc;
  clear = λ p q l m. refl;
  behind = λ p j a. cc;
  scanned = tt;
}

pub Reach-Inv : {s : System} → Reach init s → Inv s
Reach-Inv start = init-Inv
Reach-Inv (later r st) = Step-Inv (Reach-Inv r) st

pub Reach-trans : {s t u : System} → Reach s t → Reach t u → Reach s u
Reach-trans r start = r
Reach-trans r (later q st) = later (Reach-trans r q) st
