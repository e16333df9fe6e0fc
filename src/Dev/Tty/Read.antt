-- ===== src/Dev/Tty/Read.antt =====
-- `tty_handle_canon`: what is typed is edited and read.
use piggy_os.Common.{
  take, drop, ℕ, zero, suc, ◌+◌, ◌-◌, ◌<◌, ◌≤◌, ◌≡◌, inl, refl, ap, ◌∙◌, Bool, true, false, Option,
  none, some, List, [], ◌∷◌, ◌++◌, length, length-append, ◌==◌, if◌then◌else◌, All, arith,
}
use piggy_os.Utils.Ringbuf.{Ringbuf, no_ptr, ringbuf_create, ringbuf_pop}
use piggy_os.Dev.Tty.{
  Tty, translate_char, Line, read_line, copy_next, copy_line, read_first, read_typed, from_lines,
  tty_handle_canon,
}
use piggy_os.Dev.Tty.Rings.{Holds, Holds-size, Holds-ringbuf_pop, Holds-none}
use piggy_os.Dev.Tty.Edit.{passed, ends, edit, read_line-edit}

length-drop : (n : ℕ) (q : List ℕ) → length (drop n q) ≡ length q - n
length-drop zero q = omega arith
length-drop (suc n) [] = omega arith
length-drop (suc n) (x ∷ q) = omega (arith, length-drop n q)

copy_next-none :
    (next : Ringbuf → List ℕ × Ringbuf) (line : Ringbuf) (x : Bool × Option ℕ × Ringbuf)
    → x.1 ≡ none
    → copy_next next line x ≡ ([], line)
copy_next-none next line (done, none, line') e = refl
copy_next-none next line (done, some c, line') e = absurd (cc e)

-- The first bytes of a line are copied out.
copy_line-take :
    (capacity count : ℕ) (r : Ringbuf) (q : List ℕ)
    → Holds capacity r q
    → (r' : Ringbuf) × (copy_line count r ≡ (take count q, r')) × Holds capacity r' (drop count q)
unfolding copy_line
copy_line-take capacity zero r q h = (r, refl, h)
copy_line-take capacity (suc count) r [] h =
    (r, copy_next-none (copy_line count) r (ringbuf_pop r) (Holds-none capacity r h), h)
copy_line-take capacity (suc count) r (x ∷ q) h =
    let (r1, popped, h1) = Holds-ringbuf_pop capacity r q x h in
    let (r', e, h') = copy_line-take capacity count r1 q h1 in
    (r', ap (copy_next (copy_line count) r) popped ∙ ap (λ p. (x ∷ p.0, p.1)) e, h')

-- The new line of a read
abbrev new_line : List ℕ → Ringbuf
new_line storage = record {
  size = 0;
  capacity = 8192;
  read_ptr = no_ptr;
  write_ptr = no_ptr;
  slots = storage;
}

new_line-Holds : (storage : List ℕ) → length storage ≡ 8192 → Holds 8192 (new_line storage) []
new_line-Holds storage e = record {
  valid = record {
    storage = e;
    some_room = omega arith;
    small = omega arith;
    pointers = inl (refl, refl, refl);
  };
  held = refl;
  room = refl;
}

-- The lines that are left after a read of `count` bytes from a line that holds `q`
pub record Left (count : ℕ) (q : List ℕ) (lines : List Ringbuf) : Type 0 where
  pub done : length q ≤ count → lines ≡ []
  pub more : count < length q → (r : Ringbuf) × (lines ≡ r ∷ []) × Holds 8192 r (drop count q)

read_first-Left :
    (count : ℕ) (t : Tty) (r : Ringbuf) (q : List ℕ)
    → Holds 8192 r q
    → (lines : List Ringbuf) × (read_first count t r []
        ≡ (take count q, record t { canon_buf = lines }))
      × Left count q lines
unfolding read_first
read_first-Left count t r q h =
    let (r', e, h') = copy_line-take 8192 count r q h in
    let size : r'.size ≡ length q - count =
      Holds-size 8192 r' (drop count q) h' ∙ length-drop count q in
    let lines : List Ringbuf = if r'.size == 0 then [] else r' ∷ [] in
    (
      lines,
      rw e refl,
      record {
        done = λ l. let z : (r'.size == 0) ≡ true = ground (arith, size) in rw z refl;
        more = λ l. let n : (r'.size == 0) ≡ false = ground (arith, size) in rw n (r', refl, h');
      },
    )

-- What a read of `count` bytes does where no line is left: `line` is the line that is typed.
pub record Reads (capacity count : ℕ) (t : Tty) (line rest : List ℕ) (bytes : List ℕ) (t' : Tty)
    : Type 0 where
  pub text : bytes ≡ take count line
  pub lines : Left count line t'.canon_buf
  pub input : Holds capacity t'.input_buf rest
  pub attr : t'.attr ≡ t.attr

tty_handle_canon-step :
    (count : ℕ) (storage : List ℕ) (t : Tty) (input : Ringbuf) (l : Line)
    → t.canon_buf ≡ []
    → read_line
        (t.input_buf.size + 1)
        t.attr
        t.input_buf
        (record { line_buf = new_line storage; items = 0; screen = t.screen })
      ≡ some (input, l)
    → tty_handle_canon count storage t
      ≡ some (read_first count (record t { input_buf = input; screen = l.screen }) l.line_buf [])
unfolding tty_handle_canon from_lines ringbuf_create read_typed
tty_handle_canon-step count storage t input l none_left e =
    ap (from_lines count storage t) none_left ∙ ap (read_typed count t) e

-- Where no line is left and memory is at hand, and the input holds a character that ends a line,
-- behind less than 8192 others that do not, tty_handle_canon reads the first `count` bytes of the
-- line that these edit; the rest of the line stays for the next read, if there is any, and the
-- input keeps what comes behind the end of the line.
pub tty_handle_canon_lem :
    (capacity count : ℕ) (storage : List ℕ) (t : Tty) (cs rest : List ℕ) (last : ℕ)
    → length storage ≡ 8192
    → t.canon_buf ≡ []
    → Holds capacity t.input_buf (cs ++ last ∷ rest)
    → All (λ c. ends t.attr c ≡ false) cs
    → ends t.attr last ≡ true
    → length cs < 8192
    → (bytes : List ℕ) × (t' : Tty) × (tty_handle_canon count storage t ≡ some (bytes, t'))
      × Reads capacity count t
          (passed t.attr (translate_char t.attr last) (edit t.attr cs []))
          rest
          bytes
          t'
tty_handle_canon_lem capacity count storage t cs rest last room none_left h going e short =
    let start : Line = record { line_buf = new_line storage; items = 0; screen = t.screen } in
    let size = Holds-size capacity t.input_buf (cs ++ last ∷ rest) h in
    let long = length-append cs (last ∷ rest) in
    let (input, l, result, h', k) =
      read_line-edit (t.input_buf.size + 1) capacity t.attr t.input_buf start cs rest [] last h
        (record { holds = new_line-Holds storage room; counted = inl refl }) going e (omega arith)
        (omega arith) in
    let line = passed t.attr (translate_char t.attr last) (edit t.attr cs []) in
    let t1 : Tty = record t { input_buf = input; screen = l.screen } in
    let (lines, first, left) = read_first-Left count t1 l.line_buf line k.holds in
    (
      take count line,
      record t1 { canon_buf = lines },
      tty_handle_canon-step count storage t input l none_left result ∙ ap some first,
      record { text = refl; lines = left; input = h'; attr = refl },
    )
