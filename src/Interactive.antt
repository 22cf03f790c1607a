-- ===== src/Interactive.antt =====
-- 5/interactive_module: md1.c exports a number and its triple, which md2.c and md3.c print when they
-- are loaded.
use Prim.Native.String.{String}
use sem_os.Base.{ℕ, ◌*◌, List, [], ◌∷◌, ℤ, pos}

unfoldable pub md1_data : ℕ
md1_data = 7

unfoldable pub md1_func : ℕ
md1_func = md1_data * 3

-- The other two, for the module alone and not exported.
unfoldable pub md1_local : ℕ
md1_local = md1_data * 3

unfoldable pub md1_noexport : ℕ
md1_noexport = md1_data * 3

-- A `printk`, of a text or of a text with a number for its "%d".
pub data Line : Type 0 where
  text : String → Line
  number : String → ℕ → Line

-- What `md_init` of a module prints, and what it returns: md3.c returns 1, so that the kernel warns.
unfoldable pub md1_init : List Line × ℤ
md1_init = (text "+ module md1 start!" ∷ [], pos 0)

unfoldable pub md2_init : List Line × ℤ
md2_init = (
  text "+ module md2 start!"
      ∷ number "+ data number exported from md1 : %d" md1_data
      ∷ number "+ number returned md1_proc() is : %d" md1_func
      ∷ [],
  pos 0,
)

unfoldable pub md3_init : List Line × ℤ
md3_init = (
  text "+ module md3 start!"
      ∷ number "+ data int exported from md1 : %d" md1_data
      ∷ number "+ number returned md1_func() is : %d" md1_func
      ∷ [],
  pos 1,
)

-- What `md_exit` prints.
unfoldable pub md1_exit : List Line
md1_exit = text "+ module md1 unloaded!" ∷ []

unfoldable pub md2_exit : List Line
md2_exit = text "+ module md2 unloaded!" ∷ []

unfoldable pub md3_exit : List Line
md3_exit = text "+ module md3 unloaded!" ∷ []
