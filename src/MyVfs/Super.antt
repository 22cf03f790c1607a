-- ===== src/MyVfs/Super.antt =====
-- `my_vfs_make_inode` and `my_vfs_fill_sb` of 7/vfs/myvfs.c.
use sem_os.Base.{ℕ, ◌≡◌, Bool, true, false, not, [], ◌∷◌, if◌then◌else◌, ℤ, pos, enomem, arith}
use sem_os.Kernel.{Resource, World, acquire, release, unloaded}

pub data Object : Type 0 where
  inode root : Object

abbrev pub tag : Object → ℕ
tag inode = 0
tag root = 1

pub tag_injective : (a b : Object) → tag a ≡ tag b → a ≡ b
tag_injective a b e = ground arith

instance abbrev pub object_resource : Resource Object
object_resource = record { tag = tag; tag_injective = tag_injective }

pub record SuperBlock : Type 0 where
  pub s_blocksize : ℕ
  pub s_blocksize_bits : ℕ
  pub s_magic : ℕ
  pub s_root : Bool

pub record Inode : Type 0 where
  pub i_ino : ℕ
  pub i_mode : ℕ
  pub i_size : ℕ

-- `MYVFS_MAGIC_NUMBER`, and `S_IFDIR | 0755`.
abbrev pub magic_number : ℕ
magic_number = 0xAAAABBBB

abbrev pub dir_mode : ℕ
dir_mode = 0o40755

unfoldable pub my_vfs_make_inode :
    (page_size mode : ℕ) (new_inode : Bool) → Inode → World Object → Bool × Inode × World Object
my_vfs_make_inode page_size mode new_inode node w =
    let (ok, w') = acquire new_inode inode w in
    (ok, if ok then record { i_ino = 1; i_mode = mode; i_size = page_size } else node, w')

pub record Filled : Type 0 where
  pub ret : ℤ
  pub sb : SuperBlock
  pub node : Inode
  pub world : World Object

-- `new_inode` and `d_make_root` succeed or not; the second takes the inode over in both cases.
unfoldable pub my_vfs_fill_sb :
    (page_size page_shift : ℕ) (new_inode d_make_root : Bool)
    → SuperBlock
    → Inode
    → World Object
    → Filled
unfolding my_vfs_make_inode
my_vfs_fill_sb page_size page_shift new_inode d_make_root sb node w =
    let sb' = record sb {
      s_blocksize = page_size;
      s_blocksize_bits = page_shift;
      s_magic = magic_number;
    } in
    let (ok, node', w₁) = my_vfs_make_inode page_size dir_mode new_inode node w in
    if not ok
    then record { ret = enomem; sb = sb'; node = node'; world = w₁ }
    else (let (made, w₂) = acquire d_make_root root (release inode w₁).1 in
        if not made
        then record {
          ret = enomem;
          sb = record sb' { s_root = false };
          node = node';
          world = (release inode w₂).1;
        }
        else record { ret = pos 0; sb = record sb' { s_root = true }; node = node'; world = w₂ })

-- The call returns 0 exactly if the super block gets its root, and then holds the root only. It
-- returns -ENOMEM otherwise and holds nothing; but it gives the inode back a second time exactly
-- if it has an inode and no root.
pub my_vfs_fill_sb_lem :
    (page_size page_shift : ℕ) (new_inode d_make_root : Bool) (sb : SuperBlock) (node : Inode)
    (f : Filled)
    → sb.s_root ≡ false
    → my_vfs_fill_sb page_size page_shift new_inode d_make_root sb node unloaded ≡ f
    → (f.ret ≡ (if f.sb.s_root then pos 0 else enomem))
      × (f.world.held ≡ (if f.sb.s_root then root ∷ [] else []))
      × (f.world.faults ≡ (if new_inode then (if d_make_root then 0 else 1) else 0))
unfolding my_vfs_fill_sb acquire release
my_vfs_fill_sb_lem page_size page_shift new_inode d_make_root sb node f e h = ground arith
