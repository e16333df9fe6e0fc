-- ===== src/Utils/Move/Overlap.antt =====
-- `memmove` moves the bytes as if it had read all of them first.
use native.Mathlib.Decide.{ℕ_discrete, dec_lt}
use piggy_os.Common.{
  ℕ, zero, suc, ◌+◌, ◌*◌, ◌/◌, ◌%◌, ◌<◌, ◌≡◌, inl, inr, refl, sym, ap, ◌∙◌, Bool, true, false, ◌||◌,
  leb, ◌==◌, if◌then◌else◌, arith, Bool-cases, lt→ltb, le→ltb, ne→==, ==_refl,
}
use piggy_os.Utils.Move.{
  move, forward_bytes, forward_words, forward_aligned, backward_bytes, backward_words,
  backward_aligned, memmove,
}
use piggy_os.Utils.Move.Copy.{memcpy-inside, memcpy-outside, move-front, move-back}

-- Moving no byte changes nothing.
move-zero : (d s : ℕ) (m : ℕ → ℕ) (a : ℕ) → m a ≡ move 0 d s m a
move-zero d s m a =
    sym
      (memcpy-outside m m d s 0 a (elim (dec_lt a d) [ yes l ↦ inl l | no l ↦ inr (omega arith) ]))

-- The counts of the parts add up.
counted : {n k : ℕ} (d s : ℕ) (m : ℕ → ℕ) (a : ℕ) → n ≡ k → move n d s m a ≡ move k d s m a
counted d s m a e = ap (λ n. move n d s m a) e

forward_bytes-move :
    (n d s : ℕ) (m : ℕ → ℕ) (a : ℕ) → d < s → forward_bytes n d s m a ≡ move n d s m a
unfolding forward_bytes
forward_bytes-move zero d s m a below = move-zero d s m a
forward_bytes-move (suc n) d s m a below =
    forward_bytes-move n (d + 1) (s + 1) (move 1 d s m) a (omega arith)
    ∙ move-front 1 n d s m a below
    ∙ counted d s m a (omega arith)

forward_words-move :
    (q r d s : ℕ) (m : ℕ → ℕ) (a : ℕ) → d < s → forward_words q r d s m a ≡ move (8 * q + r) d s m a
unfolding forward_words
forward_words-move zero r d s m a below =
    forward_bytes-move r d s m a below ∙ counted d s m a (omega arith)
forward_words-move (suc q) r d s m a below =
    forward_words-move q r (d + 8) (s + 8) (move 8 d s m) a (omega arith)
    ∙ move-front 8 (8 * q + r) d s m a below
    ∙ counted d s m a (omega arith)

forward_aligned-move :
    (n d s : ℕ) (m : ℕ → ℕ) (a : ℕ) → d < s → forward_aligned n d s m a ≡ move n d s m a
unfolding forward_aligned
forward_aligned-move zero d s m a below = move-zero d s m a
forward_aligned-move (suc n) d s m a below = elim (Bool-cases (d % 8 == 0)) [
  | inl e ↦
      rw e
        (forward_words-move (suc n / 8) (suc n % 8) d s m a below ∙ counted d s m a (omega arith))
  | inr e ↦ rw e (
      forward_aligned-move n (d + 1) (s + 1) (move 1 d s m) a (omega arith)
      ∙ move-front 1 n d s m a below
      ∙ counted d s m a (omega arith))
]

backward_bytes-move :
    (n d s : ℕ) (m : ℕ → ℕ) (a : ℕ) → s < d → backward_bytes n d s m a ≡ move n d s m a
unfolding backward_bytes
backward_bytes-move zero d s m a above = move-zero d s m a
backward_bytes-move (suc n) d s m a above =
    backward_bytes-move n d s (move 1 (d + n) (s + n) m) a above
    ∙ move-back 1 n d s m a above
    ∙ counted d s m a (omega arith)

backward_words-move :
    (q r d s : ℕ) (m : ℕ → ℕ) (a : ℕ)
    → s < d
    → backward_words q r d s m a ≡ move (8 * q + r) d s m a
unfolding backward_words
backward_words-move zero r d s m a above =
    backward_bytes-move r d s m a above ∙ counted d s m a (omega arith)
backward_words-move (suc q) r d s m a above =
    let n = r + 8 * q in
    backward_words-move q r d s (move 8 (d + n) (s + n) m) a above
    ∙ counted d s (move 8 (d + n) (s + n) m) a (omega arith)
    ∙ move-back 8 n d s m a above
    ∙ counted d s m a (omega arith)

backward_aligned-move :
    (n d s : ℕ) (m : ℕ → ℕ) (a : ℕ) → s < d → backward_aligned n d s m a ≡ move n d s m a
unfolding backward_aligned
backward_aligned-move zero d s m a above = move-zero d s m a
backward_aligned-move (suc n) d s m a above = elim (Bool-cases ((d + suc n) % 8 == 0)) [
  | inl e ↦
      rw e
        (backward_words-move (suc n / 8) (suc n % 8) d s m a above ∙ counted d s m a (omega arith))
  | inr e ↦ rw e (
      backward_aligned-move n d s (move 1 (d + n) (s + n) m) a above
      ∙ move-back 1 n d s m a above
      ∙ counted d s m a (omega arith))
]

move_self : (n d s : ℕ) (m : ℕ → ℕ) (a : ℕ) → d ≡ s → m a ≡ move n d s m a
move_self n d s m a e = elim (dec_lt a d) [
  | yes l ↦ sym (memcpy-outside m m d s n a (inl l))
  | no l ↦ elim (dec_lt a (d + n)) [
    | yes h ↦ sym (memcpy-inside m m d s n a (omega arith) h ∙ ap m (omega arith))
    | no h ↦ sym (memcpy-outside m m d s n a (inr (omega arith)))
  ]
]

-- Whatever branch is taken, where both directions move as they should.
branches :
    (far aligned : Bool) (x : ℕ) (f g : ℕ → ℕ) (a : ℕ) (v : ℕ → ℕ)
    → v a ≡ x
    → f a ≡ x
    → g a ≡ x
    → (if far then v else if aligned then f else g) a ≡ x
branches true aligned x f g a v i j k = i
branches false true x f g a v i j k = j
branches false false x f g a v i j k = k

-- memmove leaves at every address what the move of all bytes at once does: the source's byte within the
-- destination and the old byte elsewhere, however the two overlap and are aligned.
pub memmove-move : (d s n : ℕ) (m : ℕ → ℕ) (a : ℕ) → memmove d s n m a ≡ move n d s m a
unfolding memmove
memmove-move d s n m a = elim (ℕ_discrete d s) [
  | yes e ↦ let here : (d == s) ≡ true = rw e (==_refl s) in rw here (move_self n d s m a e)
  | no k ↦ elim (dec_lt d s) [
    | yes l ↦
        rw (ne→== d s k, lt→ltb d s l)
          (branches (leb (s + n) d || leb (d + n) s) (s % 8 == d % 8) _ _ _ a (move n d s m) refl
            (forward_aligned-move n d s m a l) (forward_bytes-move n d s m a l))
    | no l ↦
        let above : s < d = omega arith in
        rw (ne→== d s k, le→ltb d s (omega arith))
          (branches (leb (s + n) d || leb (d + n) s) (s % 8 == d % 8) _ _ _ a (move n d s m) refl
            (backward_aligned-move n d s m a above) (backward_bytes-move n d s m a above))
  ]
]
