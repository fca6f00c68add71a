-- ===== src/Session/Sort.antt =====
-- src/session/session_connection.c: `sort_pool_by_arrival_inline` is a stable sort of the nodes in
-- use.
use dmmr_orbit.Base.{
  ℕ, suc, ◌+◌, ◌-◌, ltb, Bool-cases, List, [], ◌∷◌, ◌++◌, length, refl, ◌∙◌, ◌≡◌, sym, inl, inr,
  false, arith,
}
use dmmr_orbit.Base.Sort.{
  rev_onto, insert_rev, insert_all, get_elem?-rev_onto, set-rev_onto, length-insert_rev, IsSortedBy,
  with_key, insert_all-IsSortedBy, with_key-insert_all, rev_onto-append,
}
use dmmr_orbit.Node.{Node}
use dmmr_orbit.Session.{slide, sort_rounds, sort_pool_by_arrival_inline}

abbrev pub arrival_of : Node → ℕ
arrival_of n = n.arrival

-- With the sorted prefix reversed, a slide is an insertion into it.
slide-rev_onto :
    (key : Node) (rs : List Node) (y : Node) (zs : List Node)
    → slide key (rev_onto rs (y ∷ zs)) (length rs) ≡ rev_onto (insert_rev arrival_of key rs) zs
unfolding slide
slide-rev_onto key [] y zs = refl
slide-rev_onto key (r ∷ rs) y zs = elim (Bool-cases (ltb key.arrival r.arrival)) [
  | inl below ↦
      rw
        (
          slide,
          get_elem?-rev_onto rs (r ∷ y ∷ zs) 0 (length rs) (omega arith),
          below,
          set-rev_onto rs (r ∷ y ∷ zs) 1 (suc (length rs)) r (omega arith),
        )
        (slide-rev_onto key rs r (r ∷ zs))
  | inr fits ↦
      rw (slide, get_elem?-rev_onto rs (r ∷ y ∷ zs) 0 (length rs) (omega arith), fits)
        (set-rev_onto rs (r ∷ y ∷ zs) 1 (suc (length rs)) key (omega arith))
]

sort_rounds-rev_onto :
    (ys rs zs : List Node)
    → sort_rounds (length ys) (length rs) (rev_onto rs (ys ++ zs))
      ≡ rev_onto (insert_all arrival_of rs ys) zs
unfolding sort_rounds
sort_rounds-rev_onto [] rs zs = refl
sort_rounds-rev_onto (y ∷ ys) rs zs =
    let grown : length rs + 1 ≡ length (insert_rev arrival_of y rs) =
      (omega arith) ∙ sym (length-insert_rev arrival_of y rs) in
    rw
      (
        sort_rounds,
        get_elem?-rev_onto rs (y ∷ (ys ++ zs)) 0 (length rs) (omega arith),
        slide-rev_onto y rs y (ys ++ zs),
        grown,
      )
      (sort_rounds-rev_onto ys (insert_rev arrival_of y rs) zs)

sort_pool-insert_all :
    (xs zs : List Node)
    → sort_pool_by_arrival_inline (xs ++ zs) (length xs)
      ≡ rev_onto (insert_all arrival_of [] xs) [] ++ zs
unfolding sort_pool_by_arrival_inline
sort_pool-insert_all [] zs = refl
sort_pool-insert_all (x ∷ []) zs = refl
sort_pool-insert_all (x ∷ y ∷ ys) zs =
    let long : ltb (length (x ∷ y ∷ ys)) 2 ≡ false = ground arith in
    let rounds : length (x ∷ y ∷ ys) - 1 ≡ length (y ∷ ys) = omega arith in
    rw (sort_pool_by_arrival_inline, long, rounds) (sort_rounds-rev_onto (y ∷ ys) (x ∷ []) zs)
    ∙ rev_onto-append (insert_all arrival_of (x ∷ []) (y ∷ ys)) [] zs

-- Sorting the first nodes of an array leaves the rest of it in place and puts them in the order of
-- their arrival; the nodes of any one arrival time stay in the order they were in.
pub sort_pool-stable :
    (xs zs : List Node)
    → (sorted : List Node) × (sort_pool_by_arrival_inline (xs ++ zs) (length xs) ≡ sorted ++ zs)
      × IsSortedBy arrival_of sorted
      × ((t : ℕ) → with_key arrival_of t sorted ≡ with_key arrival_of t xs)
sort_pool-stable xs zs = (
  rev_onto (insert_all arrival_of [] xs) [],
  sort_pool-insert_all xs zs,
  insert_all-IsSortedBy arrival_of [] xs tt,
  λ t. with_key-insert_all arrival_of t [] xs,
)
