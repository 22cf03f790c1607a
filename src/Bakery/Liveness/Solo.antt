-- ===== src/Bakery/Liveness/Solo.antt =====
-- A client of 3/proc/bakery_server.c whose turn it is gets to its end while the others stand.
use sem_os.Base.{
  ℕ, zero, suc, ◌+◌, ◌≤◌, ◌<◌, ◌≡◌, ◌≢◌, refl, sym, ap, ◌∙◌, none, true, false, arith, Bool-cases,
  inl, inr,
}
use native.Mathlib.Decide.{dec_lt, dec_le, ℕ_discrete}
use sem_os.Bakery.Family.{update}
use sem_os.Bakery.System.{
  System, init, Reach, start, later, Step, Walk, slots, letter_z, Main, ready, Pc, started, absent,
  ticketed, at_choosing, at_zero, at_less, at_equal, taking, storing, checking, leaving, done,
  joined,
}
use sem_os.Bakery.Invariant.{Reach-Inv, Reach-trans}
use sem_os.Bakery.Letters.{finished}
use sem_os.Bakery.Liveness.Calm.{chooser, Reach-Calm}

-- Where the main thread stands, how many numbers are given out, and the clients that are looked at.
pub record Scene : Type 0 where
  pub main : Main
  pub count : ℕ
  pub bound : ℕ

-- The main thread is not in `get_number`, each of the clients has a number, and if one has no thread
-- yet, `bakery_wait` can be called; those before `k` are through.
pub record Standing (g : Scene) (k : ℕ) (s : System) : Type 0 where
  pub reached : Reach init s
  pub idle : s.main ≡ g.main
  pub quiet : chooser g.main ≡ none
  pub count : s.num ≡ g.count
  pub before : (j : ℕ) → j < k → finished (s.thread j) ≡ true
  pub given : (j : ℕ) → j < g.bound → s.thread j ≢ absent
  pub asked : (j : ℕ) → j < g.bound → s.thread j ≡ ticketed → g.main ≡ ready

-- And the client `k` stands at `x`.
record Solo (g : Scene) (k : ℕ) (x : Pc) (s : System) : Type 0 where
  all : Standing g k s
  here : s.thread k ≡ x

-- A state with a property, which can be reached from `s`.
abbrev pub To : System → (System → Type 0) → Type 0
To s F = (t : System) × Reach s t × F t

pub and_then :
    {s : System} {F G : System → Type 0} → To s F → ((t : System) → F t → To t G) → To s G
and_then (t, r, f) next = let (u, q, g) = next t f in (u, Reach-trans r q, g)

module _ {g : Scene} {k : ℕ} {s : System} {x : Pc} (a : Solo g k x s) where
  -- A step of the client's thread alone.
  moves :
      (y : Pc) (t : System)
      → Step s t
      → t.main ≡ s.main
      → t.num ≡ s.num
      → t.thread ≡ update s.thread k y
      → started y ≡ true
      → To s (Solo g k y)
  moves y t st m c e ne = (
    t,
    later start st,
    record {
      all = record {
        reached = later a.all.reached st;
        idle = m ∙ a.all.idle;
        quiet = a.all.quiet;
        count = c ∙ a.all.count;
        before = λ j l. rw e (ground (arith, a.all.before j));
        given = λ j l. rw e (ground (arith, a.all.given j));
        asked = λ j l h. ground (arith, a.all.asked j, sym (ap (λ f. f j) e) ∙ h);
      };
      here = rw e (ground arith);
    },
  )

  walks : (y : Pc) → Walk s k x y → started y ≡ true → To s (Solo g k y)
  walks y w ne = moves y _ (Step.walk k a.here w) refl refl refl ne

-- The rounds of the loop: no client before `k` has a number, and those behind it have larger ones.
module _ {g : Scene} {k : ℕ} {s : System} where
  none_smaller : {x : Pc} (j : ℕ) → Solo g k x s → s.number j < s.number k → s.number j ≡ 0
  none_smaller j a h = ground (
    arith,
    (Reach-Inv a.all.reached).ordered k j,
    (Reach-Calm a.all.reached).given_back j,
    a.all.before j,
  )

  gone_round :
      (j : ℕ) → Solo g k (at_zero j) s → s.number j ≡ 0 → To s (Solo g k (at_choosing (suc j)))
  gone_round j a h = walks a (at_choosing (suc j)) (Walk.gone h) refl

  equal_round : (j : ℕ) → Solo g k (at_equal j) s → To s (Solo g k (at_choosing (suc j)))
  equal_round j a =
      walks a (at_choosing (suc j)) (Walk.not_before ((Reach-Inv a.all.reached).behind k j a.here))
        refl

less_round :
    {g : Scene} {k : ℕ} {s : System} (j : ℕ)
    → Solo g k (at_less j) s
    → To s (Solo g k (at_choosing (suc j)))
unfolding moves walks
less_round {g} {k} {s} j a = elim (dec_lt (s.number j) (s.number k)) [
  | yes h ↦
      (let (t, r, b) = walks a (at_zero j) (Walk.less h) refl in
        let (u, q, c) = gone_round j b (none_smaller j a h) in (u, Reach-trans r q, c))
  | no h ↦
      and_then (walks a (at_equal j) (Walk.not_less (omega arith)) refl)
        (λ t. equal_round {s = t} j)
]

zero_round :
    {g : Scene} {k : ℕ} {s : System} (j : ℕ)
    → Solo g k (at_zero j) s
    → To s (Solo g k (at_choosing (suc j)))
zero_round {g} {k} {s} j a = elim (ℕ_discrete (s.number j) 0) [
  | yes h ↦ gone_round j a h
  | no h ↦ and_then (walks a (at_less j) (Walk.there h) refl) (λ t. less_round {s = t} j)
]

-- The rounds from `j` on, of which at most `d` are left, up to the critical section.
rounds :
    {g : Scene} {k : ℕ} (d j : ℕ) {s : System}
    → slots ≤ d + j
    → Solo g k (at_choosing j) s
    → To s (Solo g k taking)
rounds zero j h a = walks a taking (Walk.enter (omega arith)) refl
rounds {g} {k} (suc d) j {s} h a = elim (dec_lt j slots) [
  | no l ↦ walks a taking (Walk.enter (omega arith)) refl
  | yes l ↦
      let calm : s.choosing j ≡ false =
        ground (arith, (Reach-Calm a.all.reached).chooses j, a.all.idle, a.all.quiet) in
      and_then (walks a (at_zero j) (Walk.chosen l calm) refl)
        (λ t b. and_then (zero_round j b) (λ u. rounds d (suc j) {s = u} (omega arith)))
]

-- The critical section.
module _ {g : Scene} {k : ℕ} {s : System} where
  from_leaving : Solo g k leaving s → To s (Solo g k done)
  from_leaving a = moves a done _ (Step.leave k a.here) refl refl refl refl

  from_wrap : Solo g k checking s → To s (Solo g k leaving)
  from_wrap a = elim (dec_le s.letter letter_z) [
    | yes h ↦ moves a leaving _ (Step.keep k a.here h) refl refl refl refl
    | no h ↦ moves a leaving _ (Step.wrap k a.here (omega arith)) refl refl refl refl
  ]

  from_put : (v : ℕ) → Solo g k (storing v) s → To s (Solo g k checking)
  from_put v a = moves a checking _ (Step.put k v a.here) refl refl refl refl

  from_read : Solo g k taking s → To s (Solo g k (storing s.letter))
  from_read a = walks a (storing s.letter) Walk.read refl

from_checking : {g : Scene} {k : ℕ} {s : System} → Solo g k checking s → To s (Solo g k done)
from_checking a = and_then (from_wrap a) (λ t. from_leaving {s = t})

from_storing :
    {g : Scene} {k : ℕ} {s : System} (v : ℕ) → Solo g k (storing v) s → To s (Solo g k done)
from_storing v a = and_then (from_put v a) (λ t. from_checking {s = t})

from_taking : {g : Scene} {k : ℕ} {s : System} → Solo g k taking s → To s (Solo g k done)
from_taking {s = s} a = and_then (from_read a) (λ t. from_storing {s = t} s.letter)

from_choosing :
    {g : Scene} {k : ℕ} {s : System} (j : ℕ) → Solo g k (at_choosing j) s → To s (Solo g k done)
from_choosing j a = and_then (rounds slots j (omega arith) a) (λ t. from_taking {s = t})

-- From wherever the client stands: `bakery_wait` is called for it if it has no thread yet.
runs :
    {g : Scene} {k : ℕ} {s : System} (x : Pc)
    → k < g.bound
    → Solo g k x s
    → finished x ≡ false
    → To s (Solo g k done)
runs absent l a f = absurd (a.all.given _ l a.here)
runs {k = k} ticketed l a f =
    and_then
      (moves a (at_choosing 0) _ (Step.wait k (a.all.idle ∙ a.all.asked k l a.here) a.here) refl
        refl refl refl)
      (λ t. from_choosing {s = t} 0)
runs (at_choosing j) l a f = from_choosing j a
runs (at_zero j) l a f = and_then (zero_round j a) (λ t. from_choosing {s = t} (suc j))
runs (at_less j) l a f = and_then (less_round j a) (λ t. from_choosing {s = t} (suc j))
runs (at_equal j) l a f = and_then (equal_round j a) (λ t. from_choosing {s = t} (suc j))
runs taking l a f = from_taking a
runs (storing v) l a f = from_storing v a
runs checking l a f = from_checking a
runs leaving l a f = from_leaving a
runs done l a f = absurd cc
runs joined l a f = absurd cc

-- One more client is through.
pub next_Standing :
    {g : Scene} {k : ℕ} (s : System) → k < g.bound → Standing g k s → To s (Standing g (suc k))
next_Standing {g} {k} s l a = elim (Bool-cases (finished (s.thread k))) [
  | inl f ↦ (
    s,
    start,
    record {
      reached = a.reached;
      idle = a.idle;
      quiet = a.quiet;
      count = a.count;
      before = λ j h. ground (arith, a.before j, f);
      given = a.given;
      asked = a.asked;
    },
  )
  | inr f ↦ and_then (runs (s.thread k) l (record { all = a; here = refl }) f) (λ t b. (
    t,
    start,
    record {
      reached = b.all.reached;
      idle = b.all.idle;
      quiet = b.all.quiet;
      count = b.all.count;
      before = λ j h. ground (arith, b.all.before j, b.here);
      given = b.all.given;
      asked = b.all.asked;
    },
  ))
]
