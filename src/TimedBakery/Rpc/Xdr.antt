-- ===== src/TimedBakery/Rpc/Xdr.antt =====
-- `xdr_BAKERY` of 3/proc/bakery2/bakery_xdr.c, which encodes and decodes.
use sem_os.Base.{ℕ, ◌^◌, ◌<◌, ◌≡◌, refl, Option, some, List, ◌++◌, append_assoc}
use sem_os.Memory.{◌>>=◌}

-- An `int` is a pattern of 32 bits, a `char` one of 8.
pub record Bakery : Type 0 where
  pub num : ℕ
  pub pid : ℕ
  pub res : ℕ

-- `xdr_int` and `xdr_char`, of the library: what is encoded is decoded, whatever is behind it.
pub record Codec : Type 0 where
  pub put_int : ℕ → List ℕ
  pub get_int : List ℕ → Option (ℕ × List ℕ)
  pub put_char : ℕ → List ℕ
  pub get_char : List ℕ → Option (ℕ × List ℕ)
  pub int_back : (n : ℕ) (rest : List ℕ) → n < 2 ^ 32 → get_int (put_int n ++ rest) ≡ some (n, rest)
  pub char_back :
      (c : ℕ) (rest : List ℕ) → c < 2 ^ 8 → get_char (put_char c ++ rest) ≡ some (c, rest)

unfoldable pub encode : Codec → Bakery → List ℕ
encode x b = x.put_int b.num ++ (x.put_int b.pid ++ x.put_char b.res)

unfoldable pub decode : Codec → List ℕ → Option (Bakery × List ℕ)
decode x bytes = x.get_int bytes >>= λ n. x.get_int n.1 >>= λ p.
    x.get_char p.1 >>= λ r. some (record { num = n.0; pid = p.0; res = r.0 }, r.1)

pub record IsBakery (b : Bakery) : Type 0 where
  pub num_fits : b.num < 2 ^ 32
  pub pid_fits : b.pid < 2 ^ 32
  pub res_fits : b.res < 2 ^ 8

-- A structure is decoded as it was encoded, whatever is behind it.
pub decode-encode :
    (x : Codec) (b : Bakery) (rest : List ℕ)
    → IsBakery b
    → decode x (encode x b ++ rest) ≡ some (b, rest)
unfolding decode encode
decode-encode x b rest k =
    rw
      (
        append_assoc (x.put_int b.num),
        x.int_back b.num ((x.put_int b.pid ++ x.put_char b.res) ++ rest) k.num_fits,
        append_assoc (x.put_int b.pid),
        x.int_back b.pid (x.put_char b.res ++ rest) k.pid_fits,
        x.char_back b.res rest k.res_fits,
      )
      refl
