-- ===== src/Base/Sort.antt =====
-- Stable insertion by a numeric key, on a sorted prefix that is kept reversed.
use Prim.Native.Nat.{ℕ, zero, suc, ◌+◌, ◌≤◌, ◌<◌}
use mathlib.Core.Path.{◌≡◌, refl, sym, ap, ◌∙◌, subst}
use mathlib.Core.Bool.{true, false}
use mathlib.Core.Logic.{inl, inr}
use mathlib.Core.Option.{none, some}
unfoldable use native.Mathlib.Decide.{ℕ_discrete}
use mathlib.Core.List.{List, [], ◌∷◌, ◌++◌}
use native.Mathlib.Omega.{arith}
use dmmr_orbit.Base.Tests.{ltb, ◌==◌, if◌then◌else◌, Bool-cases}
use dmmr_orbit.Base.Lists.{length, get_elem?, set}

module _ {ℓ} {A : Type ℓ} where
  -- Every element satisfies the predicate.
  abbrev pub All {κ} : (A → Type κ) → List A → Type κ
  All P [] = Unit
  All P (x ∷ xs) = P x × All P xs

  pub All-map {κ μ} :
      (P : A → Type κ) (Q : A → Type μ) (xs : List A) → ((x : A) → P x → Q x) → All P xs → All Q xs
  All-map P Q [] f h = tt
  All-map P Q (x ∷ xs) f h = (f x h.0, All-map P Q xs f h.1)

  -- The reverse of the first list in front of the second.
  abbrev pub rev_onto : List A → List A → List A
  rev_onto [] ys = ys
  rev_onto (r ∷ rs) ys = rev_onto rs (r ∷ ys)

  pub rev_onto-append : (rs ys zs : List A) → rev_onto rs (ys ++ zs) ≡ rev_onto rs ys ++ zs
  rev_onto-append [] ys zs = refl
  rev_onto-append (r ∷ rs) ys zs = rev_onto-append rs (r ∷ ys) zs

  pub length-rev_onto : (rs ys : List A) → length (rev_onto rs ys) ≡ length rs + length ys
  length-rev_onto [] ys = omega arith
  length-rev_onto (r ∷ rs) ys = omega (arith, length-rev_onto rs (r ∷ ys))

  pub get_elem?-rev_onto :
      (rs ys : List A) (i j : ℕ) → j ≡ length rs + i → get_elem? (rev_onto rs ys) j ≡ get_elem? ys i
  get_elem?-rev_onto [] ys i j e = let same : j ≡ i = omega arith in rw same
  get_elem?-rev_onto (r ∷ rs) ys i j e = get_elem?-rev_onto rs (r ∷ ys) (suc i) j (omega arith)

  pub set-rev_onto :
      (rs ys : List A) (i j : ℕ) (v : A)
      → j ≡ length rs + i
      → set (rev_onto rs ys) j v ≡ rev_onto rs (set ys i v)
  set-rev_onto [] ys i j v e = let same : j ≡ i = omega arith in rw same
  set-rev_onto (r ∷ rs) ys i j v e = set-rev_onto rs (r ∷ ys) (suc i) j v (omega arith)

module _ {ℓ} {A : Type ℓ} (key : A → ℕ) where
  abbrev pub IsSortedBy : List A → Type 0
  IsSortedBy [] = Unit
  IsSortedBy (x ∷ xs) = All (λ y. key x ≤ key y) xs × IsSortedBy xs

  abbrev pub IsFallingBy : List A → Type 0
  IsFallingBy [] = Unit
  IsFallingBy (x ∷ xs) = All (λ y. key y ≤ key x) xs × IsFallingBy xs

  -- The elements with a given key, in order.
  abbrev pub with_key : ℕ → List A → List A
  with_key k [] = []
  with_key k (x ∷ xs) = if key x == k then x ∷ with_key k xs else with_key k xs

  -- Into a reversed ascending list, in front of the first element that is not greater.
  abbrev pub insert_rev : A → List A → List A
  insert_rev x [] = x ∷ []
  insert_rev x (r ∷ rs) = if ltb (key x) (key r) then r ∷ insert_rev x rs else x ∷ r ∷ rs

  -- The rounds of an insertion sort.
  abbrev pub insert_all : List A → List A → List A
  insert_all rs [] = rs
  insert_all rs (y ∷ ys) = insert_all (insert_rev y rs) ys

  All-insert_rev {κ} :
      (P : A → Type κ) (x : A) (rs : List A) → P x → All P rs → All P (insert_rev x rs)
  All-insert_rev P x [] p h = (p, tt)
  All-insert_rev P x (r ∷ rs) p h = elim (Bool-cases (ltb (key x) (key r))) [
    | inl below ↦ rw below (h.0, All-insert_rev P x rs p h.1)
    | inr fits ↦ rw fits (p, h)
  ]

  pub insert_rev-IsFallingBy :
      (x : A) (rs : List A) → IsFallingBy rs → IsFallingBy (insert_rev x rs)
  insert_rev-IsFallingBy x [] h = (tt, tt)
  insert_rev-IsFallingBy x (r ∷ rs) h = elim (Bool-cases (ltb (key x) (key r))) [
    | inl below ↦ rw below (
      All-insert_rev (λ y. key y ≤ key r) x rs (ground arith) h.0,
      insert_rev-IsFallingBy x rs h.1,
    )
    | inr fits ↦
        let le : key r ≤ key x = ground arith in
        rw fits
          ((le, All-map (λ y. key y ≤ key r) (λ y. key y ≤ key x) rs (λ y p. omega arith) h.0), h)
  ]

  pub insert_all-IsFallingBy : (rs ys : List A) → IsFallingBy rs → IsFallingBy (insert_all rs ys)
  insert_all-IsFallingBy rs [] h = h
  insert_all-IsFallingBy rs (y ∷ ys) h =
      insert_all-IsFallingBy (insert_rev y rs) ys (insert_rev-IsFallingBy y rs h)

  below_cons :
      (r : A) (rs ys : List A)
      → All (λ y. key y ≤ key r) rs
      → All (λ q. All (λ y. key q ≤ key y) ys) rs
      → All (λ q. All (λ y. key q ≤ key y) (r ∷ ys)) rs
  below_cons r [] ys h k = tt
  below_cons r (q ∷ rs) ys h k = ((h.0, k.0), below_cons r rs ys h.1 k.1)

  rev_onto-IsSortedBy :
      (rs ys : List A)
      → IsFallingBy rs
      → IsSortedBy ys
      → All (λ q. All (λ y. key q ≤ key y) ys) rs
      → IsSortedBy (rev_onto rs ys)
  rev_onto-IsSortedBy [] ys f s k = s
  rev_onto-IsSortedBy (r ∷ rs) ys f s k =
      rev_onto-IsSortedBy rs (r ∷ ys) f.1 (k.0, s) (below_cons r rs ys f.0 k.1)

  below_nil : (rs : List A) → All (λ q. All (λ y. key q ≤ key y) []) rs
  below_nil [] = tt
  below_nil (q ∷ rs) = (tt, below_nil rs)

  -- What the rounds of an insertion sort leave is ascending.
  pub insert_all-IsSortedBy :
      (rs ys : List A) → IsFallingBy rs → IsSortedBy (rev_onto (insert_all rs ys) [])
  insert_all-IsSortedBy rs ys h =
      rev_onto-IsSortedBy (insert_all rs ys) [] (insert_all-IsFallingBy rs ys h) tt
        (below_nil (insert_all rs ys))

  with_key-insert_rev :
      (k : ℕ) (x : A) (rs : List A) → with_key k (insert_rev x rs) ≡ with_key k (x ∷ rs)
  with_key-insert_rev k x [] = refl
  with_key-insert_rev k x (r ∷ rs) = ground (arith, with_key-insert_rev k x rs)

  with_key-rev_onto :
      (k : ℕ) (rs ys : List A)
      → with_key k (rev_onto rs ys) ≡ rev_onto (with_key k rs) (with_key k ys)
  with_key-rev_onto k [] ys = refl
  with_key-rev_onto k (r ∷ rs) ys = elim (Bool-cases (key r == k)) [
    | inl hit ↦ with_key-rev_onto k rs (r ∷ ys) ∙ rw hit
    | inr miss ↦ with_key-rev_onto k rs (r ∷ ys) ∙ rw miss
  ]

  -- They keep the elements of each key, in their order.
  pub with_key-insert_all :
      (k : ℕ) (rs ys : List A)
      → with_key k (rev_onto (insert_all rs ys) []) ≡ with_key k (rev_onto rs ys)
  with_key-insert_all k rs [] = refl
  with_key-insert_all k rs (y ∷ ys) =
      with_key-insert_all k (insert_rev y rs) ys
      ∙ (with_key-rev_onto k (insert_rev y rs) ys
          ∙ (ap (λ q. rev_onto q (with_key k ys)) (with_key-insert_rev k y rs)
              ∙ sym (with_key-rev_onto k (y ∷ rs) ys)))

  pub length-insert_rev : (x : A) (rs : List A) → length (insert_rev x rs) ≡ suc (length rs)
  length-insert_rev x [] = refl
  length-insert_rev x (r ∷ rs) = ground (arith, length-insert_rev x rs)

  pub length-insert_all : (rs ys : List A) → length (insert_all rs ys) ≡ length rs + length ys
  length-insert_all rs [] = omega arith
  length-insert_all rs (y ∷ ys) =
      omega (arith, length-insert_all (insert_rev y rs) ys, length-insert_rev y rs)

module _ {ℓ} {A : Type ℓ} (key : A → ℕ) where
  -- The key of the element at an index; 0 behind the end.
  abbrev pub key_at : List A → ℕ → ℕ
  key_at v i = elim (get_elem? v i) [ none ↦ 0 | some x ↦ key x ]

  pub key_at-rev_onto :
      (rs : List A) (r : A) (ys : List A) → key_at (rev_onto rs (r ∷ ys)) (length rs) ≡ key r
  key_at-rev_onto rs r ys =
      rw (key_at, get_elem?-rev_onto rs (r ∷ ys) 0 (length rs) (omega arith)) refl

  below-All :
      (rs ys : List A) (r : A) (i : ℕ)
      → All (λ y. key y ≤ key r) rs
      → i < length rs
      → key_at (rev_onto rs ys) i ≤ key r
  below-All [] ys r i h lt = ground arith
  below-All (q ∷ rs) ys r i h lt = elim (ℕ_discrete i (length rs)) [
    | yes e ↦ rw (e, key_at-rev_onto rs q ys) h.0
    | no ne ↦ below-All rs (q ∷ ys) r i h.1 (omega arith)
  ]

  -- A prefix that falls when it is reversed rises.
  pub key_at-rises :
      (rs ys : List A) (i j : ℕ)
      → IsFallingBy key rs
      → i ≤ j
      → j < length rs
      → key_at (rev_onto rs ys) i ≤ key_at (rev_onto rs ys) j
  key_at-rises [] ys i j f le lt = ground arith
  key_at-rises (r ∷ rs) ys i j f le lt = elim (ℕ_discrete j (length rs)) [
    | yes top ↦ elim (ℕ_discrete i (length rs)) [
      | yes e ↦ rw (e, top) (omega arith)
      | no ne ↦ rw (top, key_at-rev_onto rs r ys) (below-All rs (r ∷ ys) r i f.0 (omega arith))
    ]
    | no below ↦ key_at-rises rs (r ∷ ys) i j f.1 le (omega arith)
  ]

  -- Into a reversed list, behind its first `n` elements.
  abbrev pub insert_behind : ℕ → A → List A → List A
  insert_behind zero x rs = x ∷ rs
  insert_behind (suc n) x [] = x ∷ []
  insert_behind (suc n) x (r ∷ rs) = r ∷ insert_behind n x rs

  -- Where the elements from an index on are the greater ones, that is the place of an insertion.
  pub insert_behind-insert_rev :
      (n left : ℕ) (x : A) (rs ys : List A)
      → length rs ≡ left + n
      → ((i : ℕ) → i < left → key_at (rev_onto rs ys) i ≤ key x)
      → ((i : ℕ) → left ≤ i → i < length rs → key x < key_at (rev_onto rs ys) i)
      → insert_behind n x rs ≡ insert_rev key x rs
  insert_behind-insert_rev zero left x [] ys e low high = refl
  insert_behind-insert_rev (suc n) left x [] ys e low high = ground arith
  insert_behind-insert_rev zero left x (r ∷ rs) ys e low high =
      let le : key r ≤ key x =
        subst (λ k. k ≤ key x) (key_at-rev_onto rs r ys) (low (length rs) (omega arith)) in
      let stops : ltb (key x) (key r) ≡ false = ground arith in rw stops refl
  insert_behind-insert_rev (suc n) left x (r ∷ rs) ys e low high =
      let lt : key x < key r =
        subst (λ k. key x < k) (key_at-rev_onto rs r ys)
          (high (length rs) (omega arith) (omega arith)) in
      let goes : ltb (key x) (key r) ≡ true = ground arith in
      rw goes (
        ap (λ q. r ∷ q)
          (insert_behind-insert_rev n left x rs (r ∷ ys) (omega arith) low
            (λ i le lt'. high i le (omega arith))))
