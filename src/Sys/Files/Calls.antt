-- ===== src/Sys/Files/Calls.antt =====
-- What the calls do with an open descriptor.
use piggy_os.Common.{
  ℕ, ◌%◌, ◌<◌, ◌≡◌, refl, ◌∙◌, true, false, not, ◌&&◌, some, ◌==◌, bit_and, update_self,
}
use piggy_os.Common.Int.{ℤ, pos}
use piggy_os.Fs.Fd.{max_fds, File, Store, put_file, entry}
use piggy_os.Fs.Fd.Inv.{IsValid, put_file-IsValid}
use piggy_os.Fs.Fd.Ops.{fd_from_fdnum_lem}
use piggy_os.Fs.Fd.Dup.{counted}
use piggy_os.Sys.Files.{
  o_path, o_accmode, Node, is_dir, is_blk, World, Rax, in_store, has, with_object, with_fd,
  with_file, allows, advance_offset, transfer,
}

-- The number `i` of the process `p` names the object `f` at `fd`, which was not opened with O_PATH.
pub record Open (s : Store) (p i fd : ℕ) (f : File) : Type 0 where
  pub valid : IsValid s
  pub inside : i < max_fds
  pub named : entry s p i ≡ some fd
  pub alive : s.file fd ≡ some f
  pub usable : has (bit_and f.flags o_accmode) o_path ≡ false

-- The world with one more reference to the object.
abbrev pub looked_up : World → ℕ → File → World
looked_up w fd f = in_store (put_file fd (some (counted f 1)) w.store) w

pub with_object-some :
    (fd : ℕ) (f : File) (w : World) (next : ℕ → File → Rax × World)
    → w.store.file fd ≡ some f
    → with_object (some fd) w next ≡ next fd f
unfolding with_object
with_object-some fd f w next e = rw (e, with_object) refl

pub with_file-Open :
    (w : World) (p i fd : ℕ) (f : File) (next : ℕ → File → World → Rax × World)
    → Open w.store p i fd f
    → with_file p (pos i) w next ≡ next fd (counted f 1) (looked_up w fd f)
unfolding with_file with_fd
with_file-Open w p i fd f next o =
    rw (fd_from_fdnum_lem w.store p i fd f o.inside o.named o.alive) (
      with_object-some fd (counted f 1) (looked_up w fd f) _ (update_self w.store.file fd _)
      ∙ rw o.usable refl)

-- A descriptor stays open while its object changes.
pub put_file-Open :
    (s : Store) (p i fd : ℕ) (f g : File)
    → Open s p i fd f
    → has (bit_and g.flags o_accmode) o_path ≡ false
    → Open (put_file fd (some g) s) p i fd g
put_file-Open s p i fd f g o u = record {
  valid = put_file-IsValid s o.valid fd g;
  inside = o.inside;
  named = o.named;
  alive = update_self s.file fd (some g);
  usable = u;
}

-- The node allows a transfer of `count` bytes.
pub record Transfers (w : World) (f : File) (mode count : ℕ) : Type 0 where
  pub allowed : allows f mode ≡ true
  pub no_dir : is_dir (w.node f.node) ≡ false
  pub whole : (is_blk (w.node f.node) && not (count % (w.node f.node).st_blksize == 0)) ≡ false

pub transfer-Transfers :
    (w : World) (f : File) (mode count fd : ℕ)
    (operation : ℕ → ℕ → ℕ → ℕ → (ℕ → Node) → ℤ × (ℕ → Node))
    → Transfers w f mode count
    → transfer mode operation count fd f w
      ≡ advance_offset fd f w (operation f.node f.offset count f.flags w.node)
unfolding transfer
transfer-Transfers w f mode count fd operation t = rw (t.allowed, t.no_dir, t.whole) refl
