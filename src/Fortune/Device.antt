-- ===== src/Fortune/Device.antt =====
-- The file operations of 6/fortunka/fortune.c over the buffers and indices of the module.
-- A result `none` is an access outside a buffer, which the C code does not check.
use sem_os.Memory.{CopyIn, ◌>>=◌, room, put_nul, c_string}
use sem_os.Base.{
  ℕ, ◌+◌, ◌-◌, ◌||◌, Option, some, List, [], ◌∷◌, ◌++◌, ltb, leb, ◌==◌, if◌then◌else◌, length, take,
  drop, replicate, store, ℤ, pos, enospc, efault,
}

-- The static variables: `cookiePot`, `tmpBuf`, `readInd`, `writeInd`.
pub record Fortune : Type 0 where
  pub cookie_pot : List ℕ
  pub tmp_buf : List ℕ
  pub read_ind : ℕ
  pub write_ind : ℕ

unfoldable pub fortune_write : CopyIn → ℕ → List ℕ → Fortune → Option (ℤ × Fortune)
fortune_write user page_size buf d =
    if ltb (room page_size d.write_ind) (length buf) then some (enospc, d) else do
      pot ← store d.cookie_pot d.write_ind (user.stored buf)
      if user.left buf == 0
          then (do
            pot' ← put_nul pot (d.write_ind + length buf)
            some (
              pos (length buf),
              record d { cookie_pot = pot'; write_ind = d.write_ind + length buf },
            ))
          else some (efault, record d { cookie_pot = pot })

-- `snprintf(buf, size, "%s\n", s)`: what the buffer holds then, and the length of the whole text.
unfoldable pub snprintf_line : List ℕ → ℕ → List ℕ → Option (List ℕ × ℕ)
snprintf_line buf size s = do
  buf' ← store buf 0 (take (size - 1) (s ++ (10 ∷ [])) ++ (0 ∷ []))
  some (buf', length s + 1)

-- A read: what it returns, the bytes that reach the user, the new `*fPos`, and the device.
pub record Reply : Type 0 where
  pub ret : ℤ
  pub out : List ℕ
  pub f_pos : ℕ
  pub dev : Fortune

-- `left` is what `copy_to_user` returns, the number of bytes that it could not copy.
unfoldable pub fortune_read : (left : ℕ) → ℕ → ℕ → Fortune → Option Reply
fortune_read left page_size f_pos d =
    if ltb 0 f_pos || d.write_ind == 0
    then some (record { ret = pos 0; out = []; f_pos = f_pos; dev = d })
    else do
      let start = if leb d.write_ind d.read_ind then 0 else d.read_ind
      s ← c_string (drop start d.cookie_pot)
      (tmp, n) ← snprintf_line d.tmp_buf page_size s
      if left == 0
          then some (record {
            ret = pos n;
            out = take n tmp;
            f_pos = f_pos + n;
            dev = record d { tmp_buf = tmp; read_ind = start + n };
          })
          else some (record {
            ret = efault;
            out = [];
            f_pos = f_pos;
            dev = record d { tmp_buf = tmp; read_ind = start };
          })

-- The buffers and indices that `md_init` leaves: `vmalloc` and `memset`, and the zeroed `tmpBuf`.
unfoldable pub init_device : ℕ → Fortune
init_device page_size = record {
  cookie_pot = replicate page_size 0;
  tmp_buf = replicate page_size 0;
  read_ind = 0;
  write_ind = 0;
}
