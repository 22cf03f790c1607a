-- ===== src/Vfs/Super.antt =====
-- `my_simple_fill_super` of 7/vfs/main.c, which mounting calls for a new super block.
use sem_os.Base.{
  ℕ, ◌≡◌, Bool, true, false, Option, none, some, [], ◌∷◌, if◌then◌else◌, not, ℤ, pos, enomem, arith,
  ◌↔◌, ◌⊎◌,
}
use sem_os.Kernel.{Resource, World, acquire, release, unloaded}

pub data Object : Type 0 where
  inode root : Object

abbrev pub tag : Object → ℕ
tag inode = 0
tag root = 1

pub tag_injective : (a b : Object) → tag a ≡ tag b → a ≡ b
tag_injective a b e = ground arith

instance abbrev pub object_resource : Resource Object
object_resource = record { tag = tag; tag_injective = tag_injective }

-- The fields of `struct super_block` that are filled, and of the root's `struct inode`.
pub record SuperBlock : Type 0 where
  pub s_blocksize : ℕ
  pub s_blocksize_bits : ℕ
  pub s_magic : ℕ
  pub s_time_gran : ℕ
  pub s_root : Bool

pub record Inode : Type 0 where
  pub i_ino : ℕ
  pub i_mode : ℕ
  pub i_nlink : ℕ

abbrev pub magic_number : ℕ
magic_number = 0x13131313

-- `S_IFDIR | 0755`
abbrev pub dir_mode : ℕ
dir_mode = 0o40755

pub record Filled : Type 0 where
  pub ret : ℤ
  pub sb : SuperBlock
  pub node : Inode
  pub world : World Object

abbrev set_fields : (page_size page_shift : ℕ) → SuperBlock → SuperBlock
set_fields page_size page_shift s = record s {
  s_blocksize = page_size;
  s_blocksize_bits = page_shift;
  s_magic = magic_number;
  s_time_gran = 1;
}

-- `new_inode` and `d_make_root` succeed or not; the second takes the inode over in both cases.
-- `none` is the access through the NULL root that `d_genocide` is given where there is no root.
unfoldable pub my_simple_fill_super :
    (page_size page_shift : ℕ) (new_inode d_make_root : Bool)
    → SuperBlock
    → Inode
    → World Object
    → Option Filled
my_simple_fill_super page_size page_shift new_inode d_make_root s node w =
    let s' = set_fields page_size page_shift s in
    let (ok, w₁) = acquire new_inode inode w in
    if not ok
    then some (record { ret = enomem; sb = s'; node = node; world = w₁ })
    else (let node' : Inode = record { i_ino = 1; i_mode = dir_mode; i_nlink = 2 } in
        let (made, w₂) = acquire d_make_root root (release inode w₁).1 in
        if not made
        then none
        else some
            (record { ret = pos 0; sb = record s' { s_root = true }; node = node'; world = w₂ }))

-- The error path of a root that cannot be made crashes, and nothing else does.
pub my_simple_fill_super-crashes :
    (page_size page_shift : ℕ) (new_inode d_make_root : Bool) (s : SuperBlock) (node : Inode)
    → (my_simple_fill_super page_size page_shift new_inode d_make_root s node unloaded ≡ none)
      ↔ ((new_inode ≡ true) × (d_make_root ≡ false))
unfolding my_simple_fill_super acquire release
my_simple_fill_super-crashes page_size page_shift new_inode d_make_root s node =
    (λ h. ground arith, λ h. ground arith)

-- A call that returns gives 0 with a root that is a directory with inode number 1, or -ENOMEM and
-- no root; it holds the root, or nothing, and has given back nothing that it did not hold.
pub my_simple_fill_super_sound :
    (page_size page_shift : ℕ) (new_inode d_make_root : Bool) (s : SuperBlock) (node : Inode)
    (f : Filled)
    → s.s_root ≡ false
    → my_simple_fill_super page_size page_shift new_inode d_make_root s node unloaded ≡ some f
    → (f.world.faults ≡ 0)
      × (((f.ret ≡ pos 0)
            × (f.sb.s_root ≡ true)
            × (f.node.i_ino ≡ 1)
            × (f.node.i_mode ≡ dir_mode)
            × (f.world.held ≡ root ∷ []))
          ⊎ ((f.ret ≡ enomem) × (f.sb.s_root ≡ false) × (f.world.held ≡ [])))
unfolding my_simple_fill_super acquire release
my_simple_fill_super_sound page_size page_shift new_inode d_make_root s node f e h = ground arith
