-- ===== src/Sys/Files/Flow.antt =====
-- Sequences of calls on one descriptor.
use mathlib.Core.Path.{subst}
use mathlib.Core.Option.{some-injective}
use native.Mathlib.Decide.{ℕ_discrete}
use piggy_os.Common.{
  ℕ, zero, suc, ◌^◌, ◌<◌, ◌≤◌, ◌≡◌, ◌≢◌, ◌⊎◌, inl, inr, refl, sym, ap, ◌∙◌, true, false, none, some,
  ◌==◌, add64, sub64, arith, ne→==,
}
use piggy_os.Common.Int.{ℤ, pos, negsuc}
use piggy_os.Fs.Fd.{max_fds, File, Store, entry, Ret, fdnum, fd_close}
use piggy_os.Fs.Fd.Inv.{Unused}
use piggy_os.Fs.Fd.Ops.{released, fd_close_lem, Closes}
use piggy_os.Fs.Fd.Dup.{counted}
use piggy_os.Sys.Files.{
  o_rdonly, o_wronly, Node, Operations, World, Rax, value, in_store, advance_offset, transfer,
  syscall_read, syscall_write, syscall_close, from_ret,
}
use piggy_os.Sys.Files.Calls.{
  Open, looked_up, with_file-Open, put_file-Open, Transfers, transfer-Transfers,
}

-- The offset behind a transfer that gave `z`
abbrev pub moved_offset : ℕ → ℤ → ℕ
moved_offset offset (pos zero) = offset
moved_offset offset (pos (suc n)) = add64 offset (suc n)
moved_offset offset (negsuc n) = offset

-- What a transfer that gave `z` leaves behind: the result, the offset, one more reference.
pub record Moved (w : World) (p i fd : ℕ) (f : File) (z : ℤ) (nodes : ℕ → Node) (r : Rax × World)
    : Type 0 where
  pub result : r.0 ≡ value z
  pub now_open :
      Open r.1.store p i fd
        (record f { refcount = add64 f.refcount 1; offset = moved_offset f.offset z })
  pub nodes_after : r.1.node ≡ nodes
  pub entries : (q j : ℕ) → entry r.1.store q j ≡ entry w.store q j

advance_offset-Moved :
    (w : World) (p i fd : ℕ) (f : File) (z : ℤ) (nodes : ℕ → Node)
    → Open w.store p i fd f
    → Moved w p i fd f z nodes (advance_offset fd (counted f 1) (looked_up w fd f) (z, nodes))
unfolding advance_offset
advance_offset-Moved w p i fd f (pos zero) nodes o = record {
  result = refl;
  now_open = put_file-Open w.store p i fd f (counted f 1) o o.usable;
  nodes_after = refl;
  entries = λ q j. refl;
}
advance_offset-Moved w p i fd f (pos (suc n)) nodes o = record {
  result = refl;
  now_open =
      put_file-Open _ p i fd (counted f 1)
        (record (counted f 1) { offset = add64 f.offset (suc n) })
        (put_file-Open w.store p i fd f (counted f 1) o o.usable) o.usable;
  nodes_after = refl;
  entries = λ q j. refl;
}
advance_offset-Moved w p i fd f (negsuc n) nodes o = record {
  result = refl;
  now_open = put_file-Open w.store p i fd f (counted f 1) o o.usable;
  nodes_after = refl;
  entries = λ q j. refl;
}

-- syscall_read of an open descriptor whose node allows it gives what the node's function gives at the
-- offset of the descriptor, and moves the offset by what was read, if anything; the descriptor stays
-- open, every number names what it named, and the object has one more reference, though the call is over.
pub syscall_read_lem :
    (ops : Operations) (w : World) (p i fd count : ℕ) (f : File)
    → Open w.store p i fd f
    → Transfers w f o_rdonly count
    → let r = ops.read f.node f.offset count f.flags w.node in
      Moved w p i fd f r.0 r.1 (syscall_read ops p (pos i) true count w)
unfolding syscall_read
syscall_read_lem ops w p i fd count f o t =
    let r = ops.read f.node f.offset count f.flags w.node in
    subst (Moved w p i fd f r.0 r.1)
      (sym (
        with_file-Open w p i fd f (transfer o_rdonly ops.read count) o
        ∙ transfer-Transfers (looked_up w fd f) (counted f 1) o_rdonly count fd ops.read
            (record { allowed = t.allowed; no_dir = t.no_dir; whole = t.whole })))
      (advance_offset-Moved w p i fd f r.0 r.1 o)

-- The same of syscall_write, with a node that allows a write, the node's function for writing, and the
-- offset moved by what was written.
pub syscall_write_lem :
    (ops : Operations) (w : World) (p i fd count : ℕ) (f : File)
    → Open w.store p i fd f
    → Transfers w f o_wronly count
    → let r = ops.write f.node f.offset count f.flags w.node in
      Moved w p i fd f r.0 r.1 (syscall_write ops p (pos i) true count w)
unfolding syscall_write
syscall_write_lem ops w p i fd count f o t =
    let r = ops.write f.node f.offset count f.flags w.node in
    subst (Moved w p i fd f r.0 r.1)
      (sym (
        with_file-Open w p i fd f (transfer o_wronly ops.write count) o
        ∙ transfer-Transfers (looked_up w fd f) (counted f 1) o_wronly count fd ops.write
            (record { allowed = t.allowed; no_dir = t.no_dir; whole = t.whole })))
      (advance_offset-Moved w p i fd f r.0 r.1 o)

from_ret-done :
    (r : Ret × Store) (w : World) (n : ℕ)
    → r.0 ≡ fdnum n
    → from_ret r w ≡ (value (pos n), in_store r.1 w)
from_ret-done (a, s) w n e = rw e refl

-- Closing a descriptor whose object has more than one reference.
record Survives (s : Store) (p i fd : ℕ) (g : File) (r : Rax × World) : Type 0 where
  result : r.0 ≡ value (pos 0)
  gone : entry r.1.store p i ≡ none
  object : r.1.store.file fd ≡ some (record g { refcount = sub64 g.refcount 1 })
  unused : Unused r.1.store fd

close-Survives :
    (w : World) (p i fd : ℕ) (g : File)
    → Open w.store p i fd g
    → 2 ≤ g.refcount
    → g.refcount < 2 ^ 64
    → Survives w.store p i fd g (syscall_close p (pos i) w)
unfolding syscall_close
close-Survives w p i fd g o two small = elim (fd_close_lem w.store p i o.valid) [
  | inl (e, q) ↦ absurd (refused q)
  | inr (fd', g', e, a, c) ↦ closed fd' g' (some-injective fd' fd (sym e ∙ o.named)) a c
]
  where
    refused : (max_fds ≤ i) ⊎ (entry w.store p i ≡ none) → ⊥
    refused (inl l) = let inside = o.inside in omega arith
    refused (inr e) = cc (e, o.named)

    closed :
        (fd' : ℕ) (g' : File)
        → fd' ≡ fd
        → w.store.file fd' ≡ some g'
        → Closes w.store p i fd' g' (fd_close p (pos i) w.store)
        → Survives w.store p i fd g (from_ret (fd_close p (pos i) w.store) w)
    closed fd' g' y a c =
        let r = fd_close p (pos i) w.store in
        let same : g' ≡ g = some-injective g' g (sym a ∙ ap w.store.file y ∙ o.alive) in
        let more : (g.refcount == 1) ≡ false = ne→== g.refcount 1 (omega arith) in
        subst (Survives w.store p i fd g) (sym (from_ret-done r w 0 c.done)) (record {
          result = refl;
          gone = c.gone;
          object = sym (ap r.1.file y) ∙ c.object ∙ ap released same ∙ rw more refl;
          unused = λ q j e. elim (same_entry q j) [
            | inl (a, b) ↦ cc (a, b, e, c.gone)
            | inr n ↦
                let before = sym (c.other_entries q j n) ∙ e in
                let (a, b) = o.valid.apart q j p i fd before o.named in elsewhere a b n
          ];
        })
      where
        same_entry : (q j : ℕ) → ((q ≡ p) × (j ≡ i)) ⊎ ((q ≢ p) ⊎ (j ≢ i))
        same_entry q j = elim (ℕ_discrete q p) [
          | no n ↦ inr (inl n)
          | yes a ↦ elim (ℕ_discrete j i) [ yes b ↦ inl (a, b) | no n ↦ inr (inr n) ]
        ]

        elsewhere : {q j : ℕ} → q ≡ p → j ≡ i → (q ≢ p) ⊎ (j ≢ i) → ⊥
        elsewhere a b (inl n) = n a
        elsewhere a b (inr n) = n b

-- A descriptor that is closed after one read is gone from the table, but where its object had a reference
-- or more (and no more than a word counts) it stays allocated, and no number of any process names it.
pub syscall_read-leaks :
    (ops : Operations) (w : World) (p i fd count : ℕ) (f : File)
    → Open w.store p i fd f
    → Transfers w f o_rdonly count
    → 1 ≤ f.refcount
    → f.refcount < 2 ^ 63
    → let w1 = (syscall_read ops p (pos i) true count w).1 in
      let (rax, w2) = syscall_close p (pos i) w1 in
      (rax ≡ value (pos 0))
      × (entry w2.store p i ≡ none)
      × ((g : File) × (w2.store.file fd ≡ some g) × (g.refcount ≡ f.refcount))
      × Unused w2.store fd
unfolding syscall_close
syscall_read-leaks ops w p i fd count f o t one small =
    let m = syscall_read_lem ops w p i fd count f o t in
    let w1 = (syscall_read ops p (pos i) true count w).1 in
    let g = record f {
      refcount = add64 f.refcount 1;
      offset = moved_offset f.offset (ops.read f.node f.offset count f.flags w.node).0;
    } in
    let c = close-Survives w1 p i fd g m.now_open (omega arith) (omega arith) in
    (
      c.result,
      c.gone,
      (record g { refcount = sub64 g.refcount 1 }, c.object, omega arith),
      c.unused,
    )
