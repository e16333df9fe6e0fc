-- ===== src/Sys/Sched/Move.antt =====
-- A thread that moves from one list to the end of another.
use piggy_os.Common.{
  Outside, Distinct, ℕ, ◌+◌, ◌≤◌, ◌≡◌, ◌≢◌, sym, ◌∙◌, Option, none, List, [], ◌∷◌, ◌++◌, length,
  length-append, All, arith,
}
use piggy_os.Sys.Sched.{add_thread_to_list, remove_thread_from_list}
use piggy_os.Sys.Sched.Linked.{
  Linked, Outside-mid, Unlinked, remove-Unlinked, add-Linked, add-others,
}

All-map : {P Q : ℕ → Type 0} (f : (a : ℕ) → P a → Q a) (xs : List ℕ) → All P xs → All Q xs
All-map f [] h = tt
All-map f (x ∷ xs) h = (f x h.0, All-map f xs h.1)

All-drop :
    (P : ℕ → Type 0) (pre post : List ℕ) (t : ℕ) → All P (pre ++ (t ∷ post)) → All P (pre ++ post)
All-drop P [] post t h = h.1
All-drop P (x ∷ pre) post t h = (h.0, All-drop P pre post t h.1)

All-mid : (P : ℕ → Type 0) (pre post : List ℕ) (t : ℕ) → All P (pre ++ (t ∷ post)) → P t
All-mid P [] post t h = h.0
All-mid P (x ∷ pre) post t h = All-mid P pre post t h.1

All-last : (P : ℕ → Type 0) (xs : List ℕ) (t : ℕ) → All P xs → P t → All P (xs ++ (t ∷ []))
All-last P [] t h p = (p, tt)
All-last P (x ∷ xs) t h p = (h.0, All-last P xs t h.1 p)

Outside-drop :
    (pre post : List ℕ) (t a : ℕ) → Outside a (pre ++ (t ∷ post)) → Outside a (pre ++ post)
Outside-drop [] post t a o = o.1
Outside-drop (x ∷ pre) post t a o = (o.0, Outside-drop pre post t a o.1)

Outside-last : (xs : List ℕ) (t a : ℕ) → Outside a xs → a ≢ t → Outside a (xs ++ (t ∷ []))
Outside-last [] t a o n = (n, tt)
Outside-last (x ∷ xs) t a o n = (o.0, Outside-last xs t a o.1 n)

Distinct-drop : (pre post : List ℕ) (t : ℕ) → Distinct (pre ++ (t ∷ post)) → Distinct (pre ++ post)
Distinct-drop [] post t d = d.1
Distinct-drop (x ∷ pre) post t d = (Outside-drop pre post t x d.0, Distinct-drop pre post t d.1)

Distinct-mid : (pre post : List ℕ) (t : ℕ) → Distinct (pre ++ (t ∷ post)) → Outside t (pre ++ post)
Distinct-mid [] post t d = d.0
Distinct-mid (x ∷ pre) post t d =
    (λ e. Outside-mid pre post x t d.0 (sym e), Distinct-mid pre post t d.1)

Distinct-last : (xs : List ℕ) (t : ℕ) → Distinct xs → Outside t xs → Distinct (xs ++ (t ∷ []))
Distinct-last [] t d o = (tt, tt)
Distinct-last (x ∷ xs) t d o =
    (Outside-last xs t x d.0 (λ e. o.0 (sym e)), Distinct-last xs t d.1 o.1)

Linked-same :
    (next after : ℕ → Option ℕ) (head : Option ℕ) (xs : List ℕ)
    → All (λ a. after a ≡ next a) xs
    → Linked next head xs
    → Linked after head xs
Linked-same next after head [] h l = l
Linked-same next after head (x ∷ xs) h l =
    (l.0, rw h.0 (Linked-same next after (next x) xs h.1 l.1))

-- The lists from `to` and from `source` on are `ys` and `xs`, and share no thread.
pub record Lists (fuel : ℕ) (next : ℕ → Option ℕ) (to source : Option ℕ) (ys xs : List ℕ)
    : Type 0 where
  pub to_list : Linked next to ys
  pub source_list : Linked next source xs
  pub distinct_to : Distinct ys
  pub distinct_source : Distinct xs
  pub apart_to : All (λ y. Outside y xs) ys
  pub apart_source : All (λ x. Outside x ys) xs
  pub enough : length ys + length xs ≤ fuel

pub Lists-swap :
    (fuel : ℕ) (next : ℕ → Option ℕ) (to source : Option ℕ) (ys xs : List ℕ)
    → Lists fuel next to source ys xs
    → Lists fuel next source to xs ys
Lists-swap fuel next to source ys xs v = record {
  to_list = v.source_list;
  source_list = v.to_list;
  distinct_to = v.distinct_source;
  distinct_source = v.distinct_to;
  apart_to = v.apart_source;
  apart_source = v.apart_to;
  enough = omega (arith, v.enough);
}

module _ (fuel : ℕ) (next : ℕ → Option ℕ) (to source : Option ℕ) (ys pre post : List ℕ) (t : ℕ)
    (v : Lists fuel next to source ys (pre ++ (t ∷ post))) where
  length_ys : length ys ≤ fuel
  length_ys = omega (arith, v.enough)

  pub length_pre : length pre ≤ fuel
  length_pre = omega (arith, v.enough, length-append pre (t ∷ post))

  abbrev pub removed : Option ℕ × (ℕ → Option ℕ)
  removed = remove_thread_from_list fuel source t next

  abbrev pub added : Option ℕ × (ℕ → Option ℕ)
  added = add_thread_to_list fuel to t removed.1

  out : Unlinked next removed.1 removed.0 t pre post
  out = remove-Unlinked fuel next source t pre post length_pre v.source_list v.distinct_source

  t-Outside : Outside t ys
  t-Outside = All-mid (λ x. Outside x ys) pre post t v.apart_source

  to1 : Linked removed.1 to ys
  to1 = Linked-same next removed.1 to ys (All-map (λ a o. out.others a o) ys v.apart_to) v.to_list

  added-others : (a : ℕ) → Outside a ys → added.1 a ≡ removed.1 a
  added-others a o = add-others fuel removed.1 to t ys a length_ys to1 o

  pub moved-next : added.1 t ≡ none
  moved-next = added-others t t-Outside ∙ out.loose

  pub moved-Lists : Lists fuel added.1 added.0 removed.0 (ys ++ (t ∷ [])) (pre ++ post)
  moved-Lists = record {
    to_list = add-Linked fuel removed.1 to t ys length_ys to1 v.distinct_to t-Outside out.loose;
    source_list =
        Linked-same removed.1 added.1 removed.0 (pre ++ post)
          (All-map added-others (pre ++ post)
            (All-drop (λ x. Outside x ys) pre post t v.apart_source))
          out.left;
    distinct_to = Distinct-last ys t v.distinct_to t-Outside;
    distinct_source = Distinct-drop pre post t v.distinct_source;
    apart_to =
        All-last (λ y. Outside y (pre ++ post)) ys t
          (All-map (λ y o. Outside-drop pre post t y o) ys v.apart_to)
          (Distinct-mid pre post t v.distinct_source);
    apart_source =
        All-both (pre ++ post) (All-drop (λ x. Outside x ys) pre post t v.apart_source)
          (Distinct-mid pre post t v.distinct_source);
    enough = omega (
      arith,
      v.enough,
      length-append ys (t ∷ []),
      length-append pre (t ∷ post),
      length-append pre post,
    );
  }
    where
      All-both :
          (zs : List ℕ)
          → All (λ x. Outside x ys) zs
          → Outside t zs
          → All (λ x. Outside x (ys ++ (t ∷ []))) zs
      All-both [] h o = tt
      All-both (x ∷ zs) h o = (Outside-last ys t x h.0 (λ e. o.0 (sym e)), All-both zs h.1 o.1)
