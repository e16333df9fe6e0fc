-- ===== src/Utils/Move/Copy.antt =====
-- The bytes behind a copy, and copies in two parts.
use native.Mathlib.Decide.{dec_lt}
use piggy_os.Common.{
  ℕ, ◌+◌, ◌-◌, ◌<◌, ◌≤◌, ◌≡◌, ◌⊎◌, inl, inr, refl, sym, ap, ◌∙◌, lt→ltb, le→leb, arith,
}
use piggy_os.Utils.Move.{memcpy, move}

pub memcpy-inside :
    (to from : ℕ → ℕ) (at start n i : ℕ)
    → at ≤ i
    → i < at + n
    → memcpy to at from start n i ≡ from (start + (i - at))
unfolding memcpy
memcpy-inside to from at start n i low high = rw (le→leb at i low, lt→ltb i (at + n) high) refl

pub memcpy-outside :
    (to from : ℕ → ℕ) (at start n i : ℕ)
    → (i < at) ⊎ (at + n ≤ i)
    → memcpy to at from start n i ≡ to i
unfolding memcpy
memcpy-outside to from at start n i out = ground arith

-- Moving down: the first `w` bytes and then the next `n`.
pub move-front :
    (w n d s : ℕ) (m : ℕ → ℕ) (a : ℕ)
    → d < s
    → move n (d + w) (s + w) (move w d s m) a ≡ move (w + n) d s m a
move-front w n d s m a below = elim (dec_lt a d) [
  | yes l ↦
      memcpy-outside _ _ (d + w) (s + w) n a (inl (omega arith))
      ∙ memcpy-outside m m d s w a (inl l)
      ∙ sym (memcpy-outside m m d s (w + n) a (inl l))
  | no k ↦ elim (dec_lt a (d + w)) [
    | yes l ↦
        memcpy-outside _ _ (d + w) (s + w) n a (inl l)
        ∙ memcpy-inside m m d s w a (omega arith) l
        ∙ sym (memcpy-inside m m d s (w + n) a (omega arith) (omega arith))
    | no l ↦ elim (dec_lt a (d + w + n)) [
      | yes h ↦
          memcpy-inside _ (move w d s m) (d + w) (s + w) n a (omega arith) h
          ∙ memcpy-outside m m d s w (s + w + (a - (d + w))) (inr (omega arith))
          ∙ ap m (omega arith)
          ∙ sym (memcpy-inside m m d s (w + n) a (omega arith) (omega arith))
      | no h ↦
          memcpy-outside _ _ (d + w) (s + w) n a (inr (omega arith))
          ∙ memcpy-outside m m d s w a (inr (omega arith))
          ∙ sym (memcpy-outside m m d s (w + n) a (inr (omega arith)))
    ]
  ]
]

-- Moving up: the last `w` bytes and then the `n` before them.
pub move-back :
    (w n d s : ℕ) (m : ℕ → ℕ) (a : ℕ)
    → s < d
    → move n d s (move w (d + n) (s + n) m) a ≡ move (n + w) d s m a
move-back w n d s m a above = elim (dec_lt a d) [
  | yes l ↦
      memcpy-outside _ _ d s n a (inl l)
      ∙ memcpy-outside m m (d + n) (s + n) w a (inl (omega arith))
      ∙ sym (memcpy-outside m m d s (n + w) a (inl l))
  | no k ↦ elim (dec_lt a (d + n)) [
    | yes l ↦
        memcpy-inside _ (move w (d + n) (s + n) m) d s n a (omega arith) l
        ∙ memcpy-outside m m (d + n) (s + n) w (s + (a - d)) (inl (omega arith))
        ∙ sym (memcpy-inside m m d s (n + w) a (omega arith) (omega arith))
    | no l ↦ elim (dec_lt a (d + n + w)) [
      | yes h ↦
          memcpy-outside _ _ d s n a (inr (omega arith))
          ∙ memcpy-inside m m (d + n) (s + n) w a (omega arith) h
          ∙ ap m (omega arith)
          ∙ sym (memcpy-inside m m d s (n + w) a (omega arith) (omega arith))
      | no h ↦
          memcpy-outside _ _ d s n a (inr (omega arith))
          ∙ memcpy-outside m m (d + n) (s + n) w a (inr (omega arith))
          ∙ sym (memcpy-outside m m d s (n + w) a (inr (omega arith)))
    ]
  ]
]
