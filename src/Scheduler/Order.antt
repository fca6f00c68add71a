-- ===== src/Scheduler/Order.antt =====
-- src/scheduler/dmmr_scheduler.c: a pass of `_reorder_thread` is a stable sort by deadline.
use mathlib.Core.Path.{subst}
use dmmr_orbit.Base.{
  ℕ, zero, suc, ◌+◌, ◌-◌, ◌/◌, ◌≤◌, ◌<◌, ltb, leb, Bool-cases, List, [], ◌∷◌, ◌++◌, length, refl,
  ap, ◌∙◌, ◌≡◌, sym, inl, inr, arith,
}
use dmmr_orbit.Base.Sort.{
  rev_onto, insert_rev, insert_all, get_elem?-rev_onto, set-rev_onto, length-insert_rev,
  length-insert_all, length-rev_onto, IsSortedBy, IsFallingBy, insert_rev-IsFallingBy, with_key,
  insert_all-IsSortedBy, with_key-insert_all, rev_onto-append, key_at-rises, insert_behind,
  insert_behind-insert_rev,
}
use dmmr_orbit.Scheduler.{
  Scheduler, SchedulerConnection, deadline_at, search_place, shift_in, reorder_rounds, reorder_pass,
}

abbrev pub deadline_of : SchedulerConnection → ℕ
deadline_of c = c.realtime_deadline_us

-- What the search returns: the first place of the range whose deadline is above the key's.
search_place_lem :
    (v : List SchedulerConnection) (k n left hi top : ℕ)
    → hi ≤ left + n
    → left ≤ hi
    → hi ≤ top
    → ((i j : ℕ) → i ≤ j → j < top → deadline_at v i ≤ deadline_at v j)
    → ((i : ℕ) → i < left → deadline_at v i ≤ k)
    → ((i : ℕ) → hi ≤ i → i < top → k < deadline_at v i)
    → (place : ℕ) × (search_place v k n left hi ≡ place)
      × (place ≤ top)
      × ((i : ℕ) → i < place → deadline_at v i ≤ k)
      × ((i : ℕ) → place ≤ i → i < top → k < deadline_at v i)
unfolding search_place
search_place_lem v k zero left hi top fuel le within rises low high =
    let same : hi ≡ left = omega arith in
    (
      left,
      refl,
      omega arith,
      low,
      subst (λ q. (i : ℕ) → q ≤ i → i < top → k < deadline_at v i) same high,
    )
search_place_lem v k (suc n) left hi top fuel le within rises low high =
    elim (Bool-cases (ltb left hi)) [
      | inr done ↦
          let same : hi ≡ left = ground arith in
          (
            left,
            rw (search_place, done) refl,
            omega arith,
            low,
            subst (λ q. (i : ℕ) → q ≤ i → i < top → k < deadline_at v i) same high,
          )
      | inl more ↦
          let lt : left < hi = ground arith in
          elim (Bool-cases (leb (deadline_at v mid) k)) [
            | inl up ↦
                let at_most : deadline_at v mid ≤ k = ground arith in
                let (place, e, w, l, h) =
                  search_place_lem v k n (mid + 1) hi top (omega arith) (omega arith) within rises
                    (λ i below. let r = rises i mid (omega arith) (omega arith) in omega arith)
                    high in
                (place, rw (search_place, more, up) e, w, l, h)
            | inr down ↦
                let above : k < deadline_at v mid = ground arith in
                let (place, e, w, l, h) =
                  search_place_lem v k n left mid top (omega arith) (omega arith) (omega arith)
                    rises low (λ i from lt_top. let r = rises mid i from lt_top in omega arith) in
                (place, rw (search_place, more, down) e, w, l, h)
          ]
    ]
  where
    mid : ℕ
    mid = (left + hi - 1) / 2

-- With the sorted prefix reversed, moving its last `n` slots up puts the key behind them.
shift_in-rev_onto :
    (key : SchedulerConnection) (left n : ℕ) (rs : List SchedulerConnection)
    (y : SchedulerConnection) (zs : List SchedulerConnection)
    → length rs ≡ left + n
    → shift_in key left n (rev_onto rs (y ∷ zs)) ≡ rev_onto (insert_behind deadline_of n key rs) zs
unfolding shift_in
shift_in-rev_onto key left zero [] y zs e = let same : left ≡ 0 = omega arith in rw same refl
shift_in-rev_onto key left zero (r ∷ rs) y zs e =
    set-rev_onto rs (r ∷ y ∷ zs) 1 left key (omega arith)
shift_in-rev_onto key left (suc n) [] y zs e = ground arith
shift_in-rev_onto key left (suc n) (r ∷ rs) y zs e =
    rw
      (
        shift_in,
        get_elem?-rev_onto rs (r ∷ y ∷ zs) 0 (left + n) (omega arith),
        set-rev_onto rs (r ∷ y ∷ zs) 1 (left + suc n) r (omega arith),
      )
      (shift_in-rev_onto key left n rs r (r ∷ zs) (omega arith))

reorder_rounds-rev_onto :
    (ys rs zs : List SchedulerConnection)
    → IsFallingBy deadline_of rs
    → reorder_rounds (length ys) (length rs) (rev_onto rs (ys ++ zs))
      ≡ rev_onto (insert_all deadline_of rs ys) zs
unfolding reorder_rounds
reorder_rounds-rev_onto [] rs zs f = refl
reorder_rounds-rev_onto (y ∷ ys) rs zs f =
    let (place, e, within, low, high) =
      search_place_lem (rev_onto rs (y ∷ (ys ++ zs))) y.realtime_deadline_us (length rs) 0
        (length rs) (length rs) (omega arith) (omega arith) (omega arith)
        (λ i j le lt. key_at-rises deadline_of rs (y ∷ (ys ++ zs)) i j f le lt)
        (λ i lt. ground arith) (λ i le lt. ground arith) in
    let inserted =
      insert_behind-insert_rev deadline_of (length rs - place) place y rs (y ∷ (ys ++ zs))
        (omega arith) low high in
    let grown : length rs + 1 ≡ length (insert_rev deadline_of y rs) =
      (omega arith) ∙ sym (length-insert_rev deadline_of y rs) in
    rw
      (
        reorder_rounds,
        get_elem?-rev_onto rs (y ∷ (ys ++ zs)) 0 (length rs) (omega arith),
        e,
        shift_in-rev_onto y place (length rs - place) rs y (ys ++ zs) (omega arith),
        inserted,
        grown,
      )
      (reorder_rounds-rev_onto ys (insert_rev deadline_of y rs) zs
        (insert_rev-IsFallingBy deadline_of y rs f))

reorder_rounds-insert_all :
    (xs zs : List SchedulerConnection)
    → reorder_rounds (length xs - 1) 1 (xs ++ zs) ≡ rev_onto (insert_all deadline_of [] xs) [] ++ zs
unfolding reorder_rounds
reorder_rounds-insert_all [] zs = refl
reorder_rounds-insert_all (x ∷ ys) zs =
    let rounds : length (x ∷ ys) - 1 ≡ length ys = omega arith in
    ap (λ n. reorder_rounds n 1 (x ∷ ys ++ zs)) rounds
    ∙ reorder_rounds-rev_onto ys (x ∷ []) zs (tt, tt)
    ∙ rev_onto-append (insert_all deadline_of (x ∷ []) ys) [] zs

-- A pass of the reorder thread leaves the array behind the slots in use in place and puts the slots
-- in use in the order of their deadlines; the slots of each deadline are the
-- ones that there were, in the order they were in, and there are as many slots in use as before.
pub reorder_pass-stable :
    (s : Scheduler) (xs zs : List SchedulerConnection)
    → s.slots ≡ xs ++ zs
    → s.scheduler_connection_count ≡ length xs
    → (sorted : List SchedulerConnection) × (reorder_pass s ≡ record s { slots = sorted ++ zs })
      × IsSortedBy deadline_of sorted
      × ((t : ℕ) → with_key deadline_of t sorted ≡ with_key deadline_of t xs)
      × (length sorted ≡ length xs)
unfolding reorder_pass
reorder_pass-stable s xs zs e c = (
  rev_onto (insert_all deadline_of [] xs) [],
  rw (reorder_pass, e, c, reorder_rounds-insert_all xs zs) refl,
  insert_all-IsSortedBy deadline_of [] xs tt,
  λ t. with_key-insert_all deadline_of t [] xs,
  omega (
    arith,
    length-rev_onto (insert_all deadline_of [] xs) [],
    length-insert_all deadline_of [] xs,
  ),
)
