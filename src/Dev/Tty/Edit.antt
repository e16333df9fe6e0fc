-- ===== src/Dev/Tty/Edit.antt =====
-- The loop of `tty_handle_canon` edits a line.
use piggy_os.Common.{
  ℕ, zero, suc, ◌+◌, ◌<◌, ◌≤◌, ◌≡◌, ◌⊎◌, inl, inr, refl, ap, ◌∙◌, Bool, true, false, not, ◌&&◌,
  ◌||◌, some, List, [], ◌∷◌, ◌++◌, length, length-append, ◌==◌, if◌then◌else◌, All, arith,
  Bool-cases,
}
use piggy_os.Utils.Ringbuf.{Ringbuf, ringbuf_pop}
use piggy_os.Dev.Tty.{
  Termios, lflag, veof, verase, veol, ignore_char, translate_char, pass_to_canon_buf, Line, pass,
  erase, typed, after_typed, read_next, read_line,
}
use piggy_os.Dev.Tty.Rings.{
  Holds, Holds-ringbuf_push, Holds-ringbuf_pop, Holds-ringbuf_pop_tail, erased, erased_few,
  length-erased,
}

-- A line after a character that may be passed on
unfoldable pub passed : Termios → ℕ → List ℕ → List ℕ
passed attr ch q = if pass_to_canon_buf attr ch then q ++ (ch ∷ []) else q

-- Whether a character ends a line
abbrev pub is_end : Termios → ℕ → Bool
is_end attr ch = ch == veol attr || ch == veof attr

abbrev pub is_erase : Termios → ℕ → Bool
is_erase attr ch = lflag 2 attr && ch == verase attr

unfoldable pub ends : Termios → ℕ → Bool
ends attr c = not (ignore_char attr c) && is_end attr (translate_char attr c)

-- A line after a character that does not end it, and after several
unfoldable pub edit_one : Termios → ℕ → List ℕ → List ℕ
edit_one attr c q =
    let ch = translate_char attr c in
    if ignore_char attr c
    then q
    else if is_erase attr ch
    then erased (passed attr ch q)
    else passed attr ch q

unfoldable pub edit : Termios → List ℕ → List ℕ → List ℕ
edit attr [] q = q
edit attr (c ∷ cs) q = edit attr cs (edit_one attr c q)

-- A line with the ring that holds it; `items` counts every element, or every one but the first.
pub record Edits (l : Line) (q : List ℕ) : Type 0 where
  pub holds : Holds 8192 l.line_buf q
  pub counted : (length q ≡ l.items) ⊎ (length q ≡ l.items + 1)

-- The line behind a character that may be passed on
abbrev pub passing : Termios → ℕ → Line → Line
passing attr ch l = if pass_to_canon_buf attr ch then pass attr ch l else l

passing-Edits :
    (attr : Termios) (ch : ℕ) (l : Line) (q : List ℕ)
    → Edits l q
    → length q < 8192
    → Edits (passing attr ch l) (passed attr ch q) × (length (passed attr ch q) ≤ length q + 1)
unfolding passed pass
passing-Edits attr ch l q h room = elim (Bool-cases (pass_to_canon_buf attr ch)) [
  | inr e ↦ rw e (h, omega arith)
  | inl e ↦
      let long : length (q ++ (ch ∷ [])) ≡ length q + 1 = length-append q (ch ∷ []) in
      rw e (
        record {
          holds = Holds-ringbuf_push 8192 l.line_buf q ch h.holds room;
          counted = elim h.counted [ inl c ↦ inl (omega arith) | inr c ↦ inr (omega arith) ];
        },
        omega arith,
      )
]

erase-Edits :
    (l : Line) (q : List ℕ)
    → Edits l q
    → Edits (erase l) (erased q) × (length (erased q) ≤ length q)
unfolding erase
erase-Edits l q h =
    let size = length-erased q in
    let shorter : length (erased q) ≤ length q = elim size [
      | inl (few, same) ↦ omega arith
      | inr (two, less) ↦ omega arith
    ] in
    elim (Bool-cases (l.items == 0)) [
      | inl e ↦
          let none_left : l.items ≡ 0 = ground (arith, e) in
          let few : length q ≤ 1 = elim h.counted [ inl c ↦ omega arith | inr c ↦ omega arith ] in
          rw (e, erased_few q few) (h, omega arith)
      | inr e ↦
          let some_left : 0 < l.items = ground (arith, e) in
          rw e (
            record {
              holds = Holds-ringbuf_pop_tail 8192 l.line_buf q h.holds;
              counted = elim size [
                | inl (few, same) ↦ elim h.counted [
                  | inl c ↦ inr (omega arith)
                  | inr c ↦ absurd (omega arith)
                ]
                | inr (two, less) ↦ elim h.counted [
                  | inl c ↦ inl (omega arith)
                  | inr c ↦ inr (omega arith)
                ]
              ];
            },
            shorter,
          )
    ]

-- A character that does not end the line edits it.
typed-Edits :
    (attr : Termios) (c : ℕ) (l : Line) (q : List ℕ)
    → Edits l q
    → length q < 8192
    → ends attr c ≡ false
    → (l' : Line) × (typed attr c l ≡ (false, l'))
      × Edits l' (edit_one attr c q)
      × (length (edit_one attr c q) ≤ length q + 1)
unfolding typed edit_one ends
typed-Edits attr c l q h room e =
    let ch = translate_char attr c in
    let (p, short) = passing-Edits attr ch l q h room in
    let (r, shorter) = erase-Edits (passing attr ch l) (passed attr ch q) p in
    elim (Bool-cases (ignore_char attr c)) [
      | inl i ↦ rw i (l, refl, h, omega arith)
      | inr i ↦
          let goes_on : is_end attr ch ≡ false = ground arith in
          elim (Bool-cases (is_erase attr ch)) [
            | inl b ↦ rw (i, goes_on, b) (erase (passing attr ch l), refl, r, omega arith)
            | inr b ↦ rw (i, goes_on, b) (passing attr ch l, refl, p, omega arith)
          ]
    ]

typed-end :
    (attr : Termios) (c : ℕ) (l : Line)
    → ends attr c ≡ true
    → typed attr c l ≡ (true, passing attr (translate_char attr c) l)
unfolding typed ends
typed-end attr c l e =
    let taken : ignore_char attr c ≡ false = ground arith in
    let last : is_end attr (translate_char attr c) ≡ true = ground arith in rw (taken, last) refl

read_line-more :
    (fuel : ℕ) (attr : Termios) (input input' : Ringbuf) (l l' : Line) (c : ℕ) (ended : Bool)
    → ringbuf_pop input ≡ (true, some c, input')
    → typed attr c l ≡ (ended, l')
    → read_line (suc fuel) attr input l ≡ after_typed (read_line fuel attr) input' (ended, l')
unfolding read_line
read_line-more fuel attr input input' l l' c ended e e' =
    ap (read_next (read_line fuel attr) attr l) e ∙ ap (after_typed (read_line fuel attr) input') e'

-- From a line that holds `q`, the loop reads up to the first character that ends a line and edits
-- `q` with what comes before it, as long as the line has room for all of it.
pub read_line-edit :
    (fuel capacity : ℕ) (attr : Termios) (input : Ringbuf) (l : Line) (cs rest q : List ℕ)
    (last : ℕ)
    → Holds capacity input (cs ++ last ∷ rest)
    → Edits l q
    → All (λ c. ends attr c ≡ false) cs
    → ends attr last ≡ true
    → length q + length cs < 8192
    → length cs < fuel
    → (input' : Ringbuf) × (l' : Line) × (read_line fuel attr input l ≡ some (input', l'))
      × Holds capacity input' rest
      × Edits l' (passed attr (translate_char attr last) (edit attr cs q))
unfolding edit
read_line-edit zero capacity attr input l cs rest q last h k going e room enough =
    absurd (omega arith)
read_line-edit (suc fuel) capacity attr input l [] rest q last h k going e room enough =
    let (input', popped, h') = Holds-ringbuf_pop capacity input rest last h in
    let ch = translate_char attr last in
    let (p, short) = passing-Edits attr ch l q k (omega arith) in
    (
      input',
      passing attr ch l,
      read_line-more fuel attr input input' l (passing attr ch l) last true popped
          (typed-end attr last l e),
      h',
      p,
    )
read_line-edit (suc fuel) capacity attr input l (c ∷ cs) rest q last h k (going, more) e room
      enough =
    let (input', popped, h') = Holds-ringbuf_pop capacity input (cs ++ last ∷ rest) c h in
    let (l', step, k', short) = typed-Edits attr c l q k (omega arith) going in
    let (input'', l'', result, h'', k'') =
      read_line-edit fuel capacity attr input' l' cs rest (edit_one attr c q) last h' k' more e
        (omega arith) (omega arith) in
    (
      input'',
      l'',
      read_line-more fuel attr input input' l l' c false popped step ∙ result,
      h'',
      k'',
    )
