-- ===== src/Libc/Printf/Deliver.antt =====
-- The callbacks of libc/src/stdio/stdio_internal.c that write to memory, and
-- libc/src/stdio/vsnprintf.c and vsprintf.c.
use piggy_os.Common.{
  ℕ, ◌+◌, ◌-◌, min, ◌<◌, ◌≤◌, ◌≡◌, ◌⊎◌, Option, none, some, List, [], ◌∷◌, length, get_or, ltb,
  if◌then◌else◌, update,
}
use piggy_os.Libc.Printf.{Arg, printf_internal}

-- `cd->buf`
pub record Buf : Type 0 where
  pub str : ℕ → ℕ
  pub size : ℕ
  pub written : ℕ

-- `sprintf_callback`
unfoldable pub sprintf_callback : ℕ → Buf → Buf
sprintf_callback c b = record b { str = update b.str b.written c; written = b.written + 1 }

-- `snprintf_callback`
unfoldable pub snprintf_callback : ℕ → Buf → Buf
snprintf_callback c b =
    let str = update b.str b.written c in
    let written = b.written + 1 in
    if ltb (b.written + 1) b.size
    then record b {
      str = if ltb written b.size then update str written 0 else str;
      written = written;
    }
    else b

-- The calls of a callback with the bytes that are put out
unfoldable pub deliver : (ℕ → Buf → Buf) → List ℕ → Buf → Buf
deliver callback [] b = b
deliver callback (c ∷ cs) b = deliver callback cs (callback c b)

abbrev pub delivered : (ℕ → Buf → Buf) → Buf → Option (List ℕ × ℕ) → Option (ℕ × Buf)
delivered callback b none = none
delivered callback b (some (text, n)) = some (n, deliver callback text b)

-- `vsnprintf`
unfoldable pub vsnprintf : (ℕ → ℕ) → ℕ → List ℕ → List Arg → Option (ℕ × Buf)
vsnprintf str size fmt args =
    delivered snprintf_callback (record { str = str; size = size; written = 0 })
      (printf_internal fmt args)

-- `vsprintf`
unfoldable pub vsprintf : (ℕ → ℕ) → List ℕ → List Arg → Option (ℕ × Buf)
vsprintf str fmt args =
    delivered sprintf_callback (record { str = str; size = 0; written = 0 })
      (printf_internal fmt args)

-- What the text `cs` has become in the memory of `b`, within its size.
pub record Fits (b : Buf) (cs : List ℕ) (b' : Buf) : Type 0 where
  pub written : b'.written ≡ min (b.written + length cs) (b.size - 1)
  pub text : (i : ℕ) → b.written ≤ i → i < b'.written → b'.str i ≡ get_or cs (i - b.written) 0
  pub before : (i : ℕ) → i < b.written → b'.str i ≡ b.str i
  pub behind : (i : ℕ) → b'.written < i → b'.str i ≡ b.str i
  pub nul : (b.written < b'.written) ⊎ (b.str b.written ≡ 0) → b'.str b'.written ≡ 0
