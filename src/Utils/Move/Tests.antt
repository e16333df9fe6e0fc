-- ===== src/Utils/Move/Tests.antt =====
-- Moves of overlapping bytes, and the theorem at one of them.
use piggy_os.Common.{◌+◌, ◌≡◌}
use piggy_os.Utils.Move.{move, memmove}
use piggy_os.Utils.Move.Overlap.{memmove-move}

-- 20 bytes up by 8, with words
memmove-move_example : memmove 108 100 20 (λ a. a + 1) 115 ≡ move 20 108 100 (λ a. a + 1) 115
memmove-move_example = memmove-move 108 100 20 (λ a. a + 1) 115
