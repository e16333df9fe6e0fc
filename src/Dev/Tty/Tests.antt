-- ===== src/Dev/Tty/Tests.antt =====
-- A terminal with three characters of input.
use piggy_os.Common.{
  ℕ, ◌≡◌, refl, inr, true, false, some, List, [], ◌∷◌, ◌++◌, replicate, length-replicate, arith,
}
use piggy_os.Utils.Ringbuf.{Ringbuf}
use piggy_os.Dev.Tty.{
  Termios, Tty, ignore_char, translate_char, is_one_of, pass_to_canon_buf, do_echo,
  tty_handle_canon,
}
use piggy_os.Dev.Tty.Rings.{Holds, erased, without_last}
use piggy_os.Dev.Tty.Edit.{passed, ends, edit_one, edit}
use piggy_os.Dev.Tty.Read.{Reads, tty_handle_canon_lem}

-- The settings of `tty_init`
abbrev settings : Termios
settings = record {
  c_iflag = 0;
  c_lflag = 0x53;
  c_cc = 3 ∷ 28 ∷ 8 ∷ 21 ∷ 4 ∷ 0 ∷ 1 ∷ 0 ∷ 17 ∷ 19 ∷ 26 ∷ 10 ∷ replicate 20 0;
}

abbrev zero_byte : ℕ
zero_byte = 0

abbrev zeros : List ℕ
zeros = replicate 8192 zero_byte

abbrev input : Ringbuf
input = record {
  size = 3;
  capacity = 4;
  read_ptr = 0;
  write_ptr = 2;
  slots = b'a' ∷ b'b' ∷ 10 ∷ 0 ∷ [];
}

abbrev terminal : Tty
terminal = record { attr = settings; input_buf = input; canon_buf = []; screen = [] }

-- "ab", VERASE, "c"
edits_text : edit settings (b'a' ∷ b'b' ∷ 8 ∷ b'c' ∷ []) [] ≡ b'a' ∷ b'c' ∷ []
unfolding edit edit_one erased without_last passed translate_char ignore_char pass_to_canon_buf
    is_one_of
edits_text = refl

-- The first character of a line stays.
keeps_first : edit settings (b'a' ∷ 8 ∷ b'b' ∷ []) [] ≡ b'a' ∷ b'b' ∷ []
unfolding edit edit_one erased without_last passed translate_char ignore_char pass_to_canon_buf
    is_one_of
keeps_first = refl

echoes_control : do_echo settings 3 ≡ b'^' ∷ b'C' ∷ []
unfolding do_echo
echoes_control = refl

input-Holds : Holds 4 input ((b'a' ∷ b'b' ∷ []) ++ 10 ∷ [])
input-Holds = record {
  valid = record {
    storage = refl;
    some_room = omega arith;
    small = omega arith;
    pointers = inr (omega arith, omega arith, omega arith, omega arith, ground arith);
  };
  held = refl;
  room = refl;
}

no_ends : (ends settings b'a' ≡ false) × (ends settings b'b' ≡ false) × (ends settings 10 ≡ true)
unfolding ends translate_char ignore_char
no_ends = (refl, refl, refl)

tty_handle_canon_lem_example :
    (bytes : List ℕ) × (t' : Tty) × (tty_handle_canon 2 zeros terminal ≡ some (bytes, t'))
    × Reads 4 2 terminal
        (passed settings (translate_char settings 10) (edit settings (b'a' ∷ b'b' ∷ []) []))
        []
        bytes
        t'
tty_handle_canon_lem_example =
    tty_handle_canon_lem 4 2 zeros terminal (b'a' ∷ b'b' ∷ []) [] 10
      (length-replicate 8192 zero_byte) refl input-Holds (no_ends.0, (no_ends.1, tt)) no_ends.2
      (omega arith)
