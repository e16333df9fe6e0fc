-- ===== src/Sys/Sched/Linked.antt =====
-- The thread lists as lists of numbers: what the code's walks over the `next` pointers do to them.
use mathlib.Core.Path.{subst}
use piggy_os.Common.{
  Outside, Distinct, ℕ, zero, suc, ◌<◌, ◌≤◌, ◌≡◌, ◌≢◌, refl, sym, ◌∙◌, Option, none, some, List, [],
  ◌∷◌, ◌++◌, length, arith, update, update_self, update_ne, ne→==, ==_refl,
}
use piggy_os.Sys.Sched.{last_of, add_thread_to_list, unlink, remove_thread_from_list}

-- The list from `head` on along the pointers.
abbrev pub Linked : (ℕ → Option ℕ) → Option ℕ → List ℕ → Type 0
Linked next head [] = head ≡ none
Linked next head (t ∷ ts) = (head ≡ some t) × Linked next (next t) ts

pub Linked-update :
    (next : ℕ → Option ℕ) (a : ℕ) (v : Option ℕ) (head : Option ℕ) (xs : List ℕ)
    → Outside a xs
    → Linked next head xs
    → Linked (update next a v) head xs
Linked-update next a v head [] o l = l
Linked-update next a v head (x ∷ xs) o l =
    (l.0, rw (update_ne next a x v (λ e. o.0 (sym e))) (Linked-update next a v (next x) xs o.1 l.1))

last_of-end : (fuel : ℕ) (next : ℕ → Option ℕ) (h : ℕ) → next h ≡ none → last_of fuel next h ≡ h
unfolding last_of
last_of-end zero next h e = refl
last_of-end (suc fuel) next h e = rw (e, last_of) refl

last_of-step :
    (fuel : ℕ) (next : ℕ → Option ℕ) (h x : ℕ)
    → next h ≡ some x
    → last_of (suc fuel) next h ≡ last_of fuel next x
unfolding last_of
last_of-step fuel next h x e = rw (e, last_of) refl

-- The last thread of a list is in it.
last_of-Outside :
    (fuel : ℕ) (next : ℕ → Option ℕ) (h : ℕ) (xs : List ℕ) (a : ℕ)
    → length xs ≤ fuel
    → Linked next (next h) xs
    → Outside a (h ∷ xs)
    → a ≢ last_of fuel next h
last_of-Outside fuel next h [] a f l o = rw (last_of-end fuel next h l) o.0
last_of-Outside zero next h (x ∷ xs) a f l o = absurd (omega arith)
last_of-Outside (suc fuel) next h (x ∷ xs) a f l o =
    rw (last_of-step fuel next h x l.0) (last_of-Outside fuel next x xs a (omega arith) l.1 o.1)

-- Writing the pointer of the last thread appends to the list.
append-Linked :
    (fuel : ℕ) (next : ℕ → Option ℕ) (h t : ℕ) (xs : List ℕ)
    → length xs ≤ fuel
    → Linked next (next h) xs
    → Distinct (h ∷ xs)
    → Outside t (h ∷ xs)
    → next t ≡ none
    → let after = update next (last_of fuel next h) (some t) in
      Linked after (after h) (xs ++ (t ∷ []))
append-Linked fuel next h t [] f l d o e =
    rw (last_of-end fuel next h l)
      (update_self next h (some t), update_ne next h t (some t) o.0 ∙ e)
append-Linked zero next h t (x ∷ xs) f l d o e = absurd (omega arith)
append-Linked (suc fuel) next h t (x ∷ xs) f l d o e =
    subst (λ z. let after = update next z (some t) in Linked after (after h) (x ∷ xs ++ (t ∷ [])))
      (sym (last_of-step fuel next h x l.0))
      (
        update_ne next (last_of fuel next x) h (some t)
              (last_of-Outside fuel next x xs h (omega arith) l.1 d.0)
            ∙ l.0,
        append-Linked fuel next x t xs (omega arith) l.1 d.1 o.1 e,
      )

pub Outside-mid : (pre post : List ℕ) (a t : ℕ) → Outside a (pre ++ (t ∷ post)) → a ≢ t
Outside-mid [] post a t o = o.0
Outside-mid (x ∷ pre) post a t o = Outside-mid pre post a t o.1

unlink-here :
    (fuel : ℕ) (next : ℕ → Option ℕ) (h t : ℕ)
    → next h ≡ some t
    → unlink (suc fuel) h t next ≡ update (update next h (next t)) t none
unfolding unlink
unlink-here fuel next h t e = rw (e, unlink) (rw (==_refl t) refl)

unlink-further :
    (fuel : ℕ) (next : ℕ → Option ℕ) (h x t : ℕ)
    → next h ≡ some x
    → x ≢ t
    → unlink (suc fuel) h t next ≡ unlink fuel x t next
unfolding unlink
unlink-further fuel next h x t e n = rw (e, unlink) (rw (ne→== x t n) refl)

-- What taking `t` out of a list has done to the pointers.
pub record Unlinked (next after : ℕ → Option ℕ) (head : Option ℕ) (t : ℕ) (pre post : List ℕ)
    : Type 0 where
  pub left : Linked after head (pre ++ post)
  pub loose : after t ≡ none
  pub others : (a : ℕ) → Outside a (pre ++ (t ∷ post)) → after a ≡ next a

-- The walk that starts at `h` takes `t` out of the list behind `h`.
unlink-Linked :
    (fuel : ℕ) (next : ℕ → Option ℕ) (h t : ℕ) (pre post : List ℕ)
    → length pre < fuel
    → Linked next (next h) (pre ++ (t ∷ post))
    → Distinct (h ∷ pre ++ (t ∷ post))
    → let after = unlink fuel h t next in
      Linked after (after h) (pre ++ post)
      × (after t ≡ none)
      × ((a : ℕ) → Outside a (h ∷ pre ++ (t ∷ post)) → after a ≡ next a)
unlink-Linked zero next h t pre post f l d = absurd (omega arith)
unlink-Linked (suc fuel) next h t [] post f l d = rw (unlink-here fuel next h t l.0) (
  rw (update_ne (update next h (next t)) t h none d.0.0, update_self next h (next t))
      (Linked-update (update next h (next t)) t none (next t) post d.1.0
        (Linked-update next h (next t) (next t) post d.0.1 l.1)),
  update_self (update next h (next t)) t none,
  λ a o. update_ne (update next h (next t)) t a none o.1.0 ∙ update_ne next h a (next t) o.0,
)
unlink-Linked (suc fuel) next h t (x ∷ pre) post f l d =
    let r = unlink-Linked fuel next x t pre post (omega arith) l.1 d.1 in
    subst
      (λ after.
        Linked after (after h) (x ∷ pre ++ post)
        × (after t ≡ none)
        × ((a : ℕ) → Outside a (h ∷ x ∷ pre ++ (t ∷ post)) → after a ≡ next a))
      (sym (unlink-further fuel next h x t l.0 (Outside-mid pre post x t d.1.0)))
      ((r.2 h d.0 ∙ l.0, r.0), r.1, λ a o. r.2 a o.1)

-- remove_thread_from_list takes a thread of the list out of it, clears its pointer and touches no
-- thread of another list.
pub remove-Unlinked :
    (fuel : ℕ) (next : ℕ → Option ℕ) (head : Option ℕ) (t : ℕ) (pre post : List ℕ)
    → length pre ≤ fuel
    → Linked next head (pre ++ (t ∷ post))
    → Distinct (pre ++ (t ∷ post))
    → let (head', after) = remove_thread_from_list fuel head t next in
      Unlinked next after head' t pre post
unfolding remove_thread_from_list
remove-Unlinked fuel next head t [] post f l d = rw l.0 (
    rw (==_refl t) record {
      left = Linked-update next t none (next t) post d.0 l.1;
      loose = update_self next t none;
      others = λ a o. update_ne next t a none o.0;
    })
remove-Unlinked fuel next head t (x ∷ pre) post f l d =
    let r = unlink-Linked fuel next x t pre post (omega arith) l.1 d in
    rw l.0 (
      rw (ne→== x t (Outside-mid pre post x t d.0))
        record { left = (refl, r.0); loose = r.1; others = r.2 })

-- add_thread_to_list puts a thread without a pointer at the end of the list.
pub add-Linked :
    (fuel : ℕ) (next : ℕ → Option ℕ) (head : Option ℕ) (t : ℕ) (xs : List ℕ)
    → length xs ≤ fuel
    → Linked next head xs
    → Distinct xs
    → Outside t xs
    → next t ≡ none
    → let (head', after) = add_thread_to_list fuel head t next in
      Linked after head' (xs ++ (t ∷ []))
unfolding add_thread_to_list
add-Linked fuel next head t [] f l d o e = rw l (refl, e)
add-Linked fuel next head t (x ∷ xs) f l d o e =
    subst
      (λ hd.
        let (head', after) = add_thread_to_list fuel hd t next in
        Linked after head' (x ∷ xs ++ (t ∷ [])))
      (sym l.0) (refl, append-Linked fuel next x t xs (omega arith) l.1 d o e)

-- The pointer of a thread that is not in the list stays.
pub add-others :
    (fuel : ℕ) (next : ℕ → Option ℕ) (head : Option ℕ) (t : ℕ) (xs : List ℕ) (a : ℕ)
    → length xs ≤ fuel
    → Linked next head xs
    → Outside a xs
    → (add_thread_to_list fuel head t next).1 a ≡ next a
unfolding add_thread_to_list
add-others fuel next head t [] a f l o = rw l refl
add-others fuel next head t (x ∷ xs) a f l o = rw l.0 (
    update_ne next (last_of fuel next x) a (some t)
      (last_of-Outside fuel next x xs a (omega arith) l.1 o))
