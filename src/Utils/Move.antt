-- ===== src/Utils/Move.antt =====
-- kernel/src/utils/string.c: `memcpy` and `memmove`, over memory as a function from addresses to bytes.
pub mod Copy
pub mod Overlap
mod Tests
use piggy_os.Common.{
  ℕ, zero, suc, ◌+◌, ◌-◌, ◌*◌, ◌/◌, ◌%◌, Bool, true, false, ◌&&◌, ◌||◌, ltb, leb, ◌==◌,
  if◌then◌else◌,
}

-- `memcpy(to + at, from + start, n)`, where no byte is read that has been written.
unfoldable pub memcpy : (ℕ → ℕ) → ℕ → (ℕ → ℕ) → ℕ → ℕ → ℕ → ℕ
memcpy to at from start n i = if leb at i && ltb i (at + n) then from (start + (i - at)) else to i

-- `*d = *s` of `w` bytes at once, in one memory
abbrev pub move : ℕ → ℕ → ℕ → (ℕ → ℕ) → ℕ → ℕ
move w d s m = memcpy m d m s w

-- `for (; n; n--) *d++ = *s++;`
unfoldable pub forward_bytes : ℕ → ℕ → ℕ → (ℕ → ℕ) → ℕ → ℕ
forward_bytes zero d s m = m
forward_bytes (suc n) d s m = forward_bytes n (d + 1) (s + 1) (move 1 d s m)

-- The loop over `q` words, and then the `r` bytes that are left
unfoldable pub forward_words : ℕ → ℕ → ℕ → ℕ → (ℕ → ℕ) → ℕ → ℕ
forward_words zero r d s m = forward_bytes r d s m
forward_words (suc q) r d s m = forward_words q r (d + 8) (s + 8) (move 8 d s m)

-- The loop up to a word of the destination, and then the words
unfoldable pub forward_aligned : ℕ → ℕ → ℕ → (ℕ → ℕ) → ℕ → ℕ
forward_aligned zero d s m = m
forward_aligned (suc n) d s m =
    let words = forward_words (suc n / 8) (suc n % 8) d s m in
    let next = forward_aligned n (d + 1) (s + 1) (move 1 d s m) in
    if d % 8 == 0 then words else next

-- `while (n) { n--; d[n] = s[n]; }`
unfoldable pub backward_bytes : ℕ → ℕ → ℕ → (ℕ → ℕ) → ℕ → ℕ
backward_bytes zero d s m = m
backward_bytes (suc n) d s m = backward_bytes n d s (move 1 (d + n) (s + n) m)

-- The loop over the last `q` words, and then the `r` bytes that are left
unfoldable pub backward_words : ℕ → ℕ → ℕ → ℕ → (ℕ → ℕ) → ℕ → ℕ
backward_words zero r d s m = backward_bytes r d s m
backward_words (suc q) r d s m =
    let n = r + 8 * q in backward_words q r d s (move 8 (d + n) (s + n) m)

unfoldable pub backward_aligned : ℕ → ℕ → ℕ → (ℕ → ℕ) → ℕ → ℕ
backward_aligned zero d s m = m
backward_aligned (suc n) d s m =
    let words = backward_words (suc n / 8) (suc n % 8) d s m in
    let next = backward_aligned n d s (move 1 (d + n) (s + n) m) in
    if (d + suc n) % 8 == 0 then words else next

-- `memmove`
unfoldable pub memmove : ℕ → ℕ → ℕ → (ℕ → ℕ) → ℕ → ℕ
memmove d s n m =
    let aligned = s % 8 == d % 8 in
    if d == s
    then m
    else if leb (s + n) d || leb (d + n) s
    then move n d s m
    else if ltb d s
    then (if aligned then forward_aligned n d s m else forward_bytes n d s m)
    else (if aligned then backward_aligned n d s m else backward_bytes n d s m)
