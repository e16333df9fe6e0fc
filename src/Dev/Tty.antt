-- ===== src/Dev/Tty.antt =====
-- kernel/src/dev/char/tty/tty.c: a terminal's input, with line editing and without, over the rings
-- of Utils.Ringbuf. A `char` is a byte, negative from 128 on. The ring of lines is the list of the
-- rings that its pointers lead to, and `screen` is what the terminal emulator has been given to
-- draw. `none` is a read that waits: all that is typed so far does not end it.
pub mod Rings
pub mod Edit
pub mod Read
mod Tests
use piggy_os.Common.{
  ℕ, zero, suc, ◌+◌, ◌-◌, ◌≡◌, Bool, true, false, not, ◌&&◌, ◌||◌, Option, none, some, List, [],
  ◌∷◌, ◌++◌, length, get_or, ltb, leb, ◌==◌, if◌then◌else◌, bit_and,
}
use piggy_os.Utils.Ringbuf.{Ringbuf, ringbuf_create, ringbuf_push, ringbuf_pop, ringbuf_pop_tail}

-- `struct termios`, without the fields that the terminal does not read
pub record Termios : Type 0 where
  pub c_iflag : ℕ
  pub c_lflag : ℕ
  pub c_cc : List ℕ

-- `struct tty`
pub record Tty : Type 0 where
  pub attr : Termios
  pub input_buf : Ringbuf
  pub canon_buf : List Ringbuf
  pub screen : List ℕ

abbrev pub iflag : ℕ → Termios → Bool
iflag bit attr = not (bit_and attr.c_iflag bit == 0)

abbrev pub lflag : ℕ → Termios → Bool
lflag bit attr = not (bit_and attr.c_lflag bit == 0)

-- The control characters VEOF, VERASE and VEOL
abbrev pub veof : Termios → ℕ
veof attr = get_or attr.c_cc 4 0

abbrev pub verase : Termios → ℕ
verase attr = get_or attr.c_cc 2 0

abbrev pub veol : Termios → ℕ
veol attr = get_or attr.c_cc 11 0

-- `ignore_char`, with IGNCR
unfoldable pub ignore_char : Termios → ℕ → Bool
ignore_char attr c = c == 0x0d && iflag 1 attr

-- `translate_char`, with ICRNL and INLCR
unfoldable pub translate_char : Termios → ℕ → ℕ
translate_char attr c =
    if c == 0x0d && iflag 2 attr
    then veol attr
    else if c == veol attr && iflag 4 attr
    then 0x0d
    else c

unfoldable pub is_one_of : ℕ → List ℕ → Bool
is_one_of c [] = false
is_one_of c (d ∷ cc) = c == d || is_one_of c cc

-- `pass_to_canon_buf`
unfoldable pub pass_to_canon_buf : Termios → ℕ → Bool
pass_to_canon_buf attr c =
    c == veol attr || c == 0x09 || (leb 32 c && ltb c 128) || not (is_one_of c attr.c_cc)

-- The bytes that `do_echo` draws, with ECHO and ECHOCTL
unfoldable pub do_echo : Termios → ℕ → List ℕ
do_echo attr c =
    let control = ltb 0 c && ltb c 32 && not (c == veol attr) && not (c == 0x09) in
    if not (lflag 1 attr)
    then []
    else if control
    then (if lflag 16 attr then b'^' ∷ (c + 64) ∷ [] else [])
    else c ∷ []

-- The locals of `tty_handle_canon`
pub record Line : Type 0 where
  pub line_buf : Ringbuf
  pub items : ℕ
  pub screen : List ℕ

-- A character that is passed on
unfoldable pub pass : Termios → ℕ → Line → Line
pass attr ch l = record {
  line_buf = (ringbuf_push l.line_buf ch).1;
  items = l.items + 1;
  screen = l.screen ++ do_echo attr ch;
}

-- VERASE
unfoldable pub erase : Line → Line
erase l = if l.items == 0 then l else record {
  line_buf = (ringbuf_pop_tail l.line_buf).2;
  items = l.items - 1;
  screen = l.screen ++ (0x08 ∷ b' ' ∷ 0x08 ∷ []);
}

-- The round of the loop of `tty_handle_canon` for a character, which ends the line or not
unfoldable pub typed : Termios → ℕ → Line → Bool × Line
typed attr c l =
    let ch = translate_char attr c in
    let passed = if pass_to_canon_buf attr ch then pass attr ch l else l in
    if ignore_char attr c
    then (false, l)
    else if ch == veol attr || ch == veof attr
    then (true, passed)
    else if lflag 2 attr && ch == verase attr
    then (false, erase passed)
    else (false, passed)

abbrev pub after_typed :
    (Ringbuf → Line → Option (Ringbuf × Line)) → Ringbuf → Bool × Line → Option (Ringbuf × Line)
after_typed next input (true, l) = some (input, l)
after_typed next input (false, l) = next input l

-- A round of the loop over what has been typed
abbrev pub read_next :
    (Ringbuf → Line → Option (Ringbuf × Line))
    → Termios
    → Line
    → Bool × Option ℕ × Ringbuf
    → Option (Ringbuf × Line)
read_next next attr l (done, none, input) = none
read_next next attr l (done, some c, input) = after_typed next input (typed attr c l)

unfoldable pub read_line : ℕ → Termios → Ringbuf → Line → Option (Ringbuf × Line)
read_line zero attr input l = none
read_line (suc fuel) attr input l = read_next (read_line fuel attr) attr l (ringbuf_pop input)

abbrev pub copy_next :
    (Ringbuf → List ℕ × Ringbuf) → Ringbuf → Bool × Option ℕ × Ringbuf → List ℕ × Ringbuf
copy_next next line (done, none, line') = ([], line)
copy_next next line (done, some c, line') = let (bytes, rest) = next line' in (c ∷ bytes, rest)

-- The loop that copies up to `count` bytes of a line out
unfoldable pub copy_line : ℕ → Ringbuf → List ℕ × Ringbuf
copy_line zero line = ([], line)
copy_line (suc count) line = copy_next (copy_line count) line (ringbuf_pop line)

-- The read from the first line
unfoldable pub read_first : ℕ → Tty → Ringbuf → List Ringbuf → List ℕ × Tty
read_first count t line lines =
    let (bytes, rest) = copy_line count line in
    (bytes, record t { canon_buf = if rest.size == 0 then lines else rest ∷ lines })

-- The line that is typed, and the read from it
unfoldable pub read_typed : ℕ → Tty → Option (Ringbuf × Line) → Option (List ℕ × Tty)
read_typed count t none = none
read_typed count t (some (input, l)) =
    some (read_first count (record t { input_buf = input; screen = l.screen }) l.line_buf [])

abbrev pub with_line : (Ringbuf → Option (List ℕ × Tty)) → Option Ringbuf → Option (List ℕ × Tty)
with_line next none = none
with_line next (some line) = next line

-- `tty_handle_canon`; `storage` is what `kmalloc` gives for a new line.
unfoldable pub from_lines : ℕ → List ℕ → Tty → List Ringbuf → Option (List ℕ × Tty)
from_lines count storage t (line ∷ lines) = some (read_first count t line lines)
from_lines count storage t [] =
    with_line
      (λ line. read_typed count t (
        read_line (t.input_buf.size + 1) t.attr t.input_buf
          (record { line_buf = line; items = 0; screen = t.screen })))
      (ringbuf_create 8192 true (some storage))

unfoldable pub tty_handle_canon : ℕ → List ℕ → Tty → Option (List ℕ × Tty)
tty_handle_canon count storage t = from_lines count storage t t.canon_buf

-- The loop of `tty_read` without line editing: what is read, what is left, and what is drawn; a
-- character that is ignored counts as one of the `count` as well.
unfoldable pub read_raw : ℕ → Termios → Ringbuf → List ℕ × Ringbuf × List ℕ
read_raw zero attr input = ([], input, [])
read_raw (suc count) attr input =
    let (done, out, input') = ringbuf_pop input in
    elim out [
      | none ↦ ([], input, [])
      | some c ↦
          let (bytes, rest, drawn) = read_raw count attr input' in
          let ch = translate_char attr c in
          if ignore_char attr c
          then (bytes, rest, drawn)
          else (ch ∷ bytes, rest, do_echo attr ch ++ drawn)
    ]

abbrev pub after_raw : Tty → List ℕ × Ringbuf × List ℕ → List ℕ × Tty
after_raw t (bytes, rest, drawn) =
    (bytes, record t { input_buf = rest; screen = t.screen ++ drawn })

abbrev pub as_read : Option (List ℕ × Tty) → Option (Option (List ℕ) × Tty)
as_read none = none
as_read (some (bytes, t)) = some (some bytes, t)

-- `tty_read`, with ICANON, VMIN and VTIME; the inner `none` is -1.
unfoldable pub tty_read : ℕ → List ℕ → Tty → Option (Option (List ℕ) × Tty)
tty_read count storage t =
    let min = get_or t.attr.c_cc 6 0 in
    let time = get_or t.attr.c_cc 5 0 in
    let raw = as_read (some (after_raw t (read_raw count t.attr t.input_buf))) in
    let line = as_read (tty_handle_canon count storage t) in
    if lflag 64 t.attr
    then line
    else if not (time == 0)
    then some (none, t)
    else if ltb t.input_buf.size min
    then none
    else raw

-- `tty_write`
unfoldable pub tty_write : List ℕ → Tty → ℕ × Tty
tty_write buf t = (length buf, record t { screen = t.screen ++ buf })
