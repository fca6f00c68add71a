-- ===== src/Text/Length.antt =====
-- `__vlen` of src/include/funcs.h: what it returns on a string in memory.
use dmmr_orbit.Base.{
  ℕ, zero, suc, ◌+◌, ◌-◌, ◌*◌, ◌%◌, ◌<◌, ◌≤◌, ltb, ◌≡◌, ◌≢◌, refl, ◌∙◌, ap, ◌==◌, Bool-cases, inl,
  inr, true, false, none, some, ret, arith,
}
use dmmr_orbit.Bytes.{Memory}
use dmmr_orbit.Text.{bytes_at, word_at, flag, find_nul, test_bytes, word_loop, vlen}
use dmmr_orbit.Text.Flag.{flag_0, flag_1, flag_2, flag_3, flag_4, flag_5, flag_6, flag_7}

-- A memory of bytes.
abbrev pub IsBytes : Memory → Type 0
IsBytes m = (a : ℕ) → m a < 256

-- `n` bytes from `a` on, none of them NUL.
abbrev pub NoNul : Memory → ℕ → ℕ → Type 0
NoNul m a n = (i : ℕ) → i < n → m (a + i) ≢ 0

below_eight :
    (P : ℕ → Type 0) → P 0 → P 1 → P 2 → P 3 → P 4 → P 5 → P 6 → P 7 → (i : ℕ) → i < 8 → P i
below_eight P n0 n1 n2 n3 n4 n5 n6 n7 zero h = n0
below_eight P n0 n1 n2 n3 n4 n5 n6 n7 (suc zero) h = n1
below_eight P n0 n1 n2 n3 n4 n5 n6 n7 (suc (suc zero)) h = n2
below_eight P n0 n1 n2 n3 n4 n5 n6 n7 (suc (suc (suc zero))) h = n3
below_eight P n0 n1 n2 n3 n4 n5 n6 n7 (suc (suc (suc (suc zero)))) h = n4
below_eight P n0 n1 n2 n3 n4 n5 n6 n7 (suc (suc (suc (suc (suc zero))))) h = n5
below_eight P n0 n1 n2 n3 n4 n5 n6 n7 (suc (suc (suc (suc (suc (suc zero)))))) h = n6
below_eight P n0 n1 n2 n3 n4 n5 n6 n7 (suc (suc (suc (suc (suc (suc (suc zero))))))) h = n7
below_eight P n0 n1 n2 n3 n4 n5 n6 n7 (suc (suc (suc (suc (suc (suc (suc (suc i)))))))) h =
    absurd (omega arith)

-- A word without a flag has no NUL.
flag-NoNul : (m : Memory) (a : ℕ) → IsBytes m → flag (word_at m a) ≡ 0 → NoNul m a 8
flag-NoNul m a b e =
    let a1 = a + 1 in
    let a2 = a1 + 1 in
    let a3 = a2 + 1 in
    let a4 = a3 + 1 in
    let a5 = a4 + 1 in
    let a6 = a5 + 1 in
    let a7 = a6 + 1 in
    let b0 = b a in
    let b1 = b a1 in
    let b2 = b a2 in
    let b3 = b a3 in
    let b4 = b a4 in
    let b5 = b a5 in
    let b6 = b a6 in
    let b7 = b a7 in
    let n0 : m a ≢ 0 = λ z.
      flag_0 0 (bytes_at 7 m a1) (omega arith) (omega arith) (omega arith)
        (ap flag (omega arith) ∙ e) in
    let n1 : m a1 ≢ 0 = λ z.
      flag_1 (bytes_at 1 m a) (bytes_at 6 m a2) (omega arith) (omega arith) (omega arith)
        (ap flag (omega arith) ∙ e) in
    let n2 : m a2 ≢ 0 = λ z.
      flag_2 (bytes_at 2 m a) (bytes_at 5 m a3) (omega arith) (omega arith) (omega arith)
        (ap flag (omega arith) ∙ e) in
    let n3 : m a3 ≢ 0 = λ z.
      flag_3 (bytes_at 3 m a) (bytes_at 4 m a4) (omega arith) (omega arith) (omega arith)
        (ap flag (omega arith) ∙ e) in
    let n4 : m a4 ≢ 0 = λ z.
      flag_4 (bytes_at 4 m a) (bytes_at 3 m a5) (omega arith) (omega arith) (omega arith)
        (ap flag (omega arith) ∙ e) in
    let n5 : m a5 ≢ 0 = λ z.
      flag_5 (bytes_at 5 m a) (bytes_at 2 m a6) (omega arith) (omega arith) (omega arith)
        (ap flag (omega arith) ∙ e) in
    let n6 : m a6 ≢ 0 = λ z.
      flag_6 (bytes_at 6 m a) (bytes_at 1 m a7) (omega arith) (omega arith) (omega arith)
        (ap flag (omega arith) ∙ e) in
    let n7 : m a7 ≢ 0 = λ z.
      flag_7 (bytes_at 7 m a) 0 (omega arith) (omega arith) (omega arith)
        (ap flag (omega arith) ∙ e) in
    below_eight (λ i. m (a + i) ≢ 0) (λ z. n0 (ap m (omega arith) ∙ z))
      (λ z. n1 (ap m (omega arith) ∙ z)) (λ z. n2 (ap m (omega arith) ∙ z))
      (λ z. n3 (ap m (omega arith) ∙ z)) (λ z. n4 (ap m (omega arith) ∙ z))
      (λ z. n5 (ap m (omega arith) ∙ z)) (λ z. n6 (ap m (omega arith) ∙ z))
      (λ z. n7 (ap m (omega arith) ∙ z))

-- The search for the NUL, with and without one.
find_nul-found :
    (m : Memory) (n p k : ℕ) → k < n → NoNul m p k → m (p + k) ≡ 0 → find_nul m n p ≡ some (p + k)
unfolding find_nul
find_nul-found m zero p k h q z = absurd (omega arith)
find_nul-found m (suc n) p zero h q z =
    let z' : m p ≡ 0 = ap m (omega arith) ∙ z in
    let here : (m p == 0) ≡ true = ground arith in rw here (ap some (omega arith))
find_nul-found m (suc n) p (suc k) h q z =
    let first : m p ≢ 0 = λ e. q 0 (omega arith) (ap m (omega arith) ∙ e) in
    let more : (m p == 0) ≡ false = ground arith in
    let later : NoNul m (p + 1) k = λ i l e. q (suc i) (omega arith) (ap m (omega arith) ∙ e) in
    rw (more, find_nul-found m n (p + 1) k (omega arith) later (ap m (omega arith) ∙ z))
      (ap some (omega arith))

find_nul-none : (m : Memory) (n p : ℕ) → NoNul m p n → find_nul m n p ≡ none
unfolding find_nul
find_nul-none m zero p q = refl
find_nul-none m (suc n) p q =
    let first : m p ≢ 0 = λ e. q 0 (omega arith) (ap m (omega arith) ∙ e) in
    let more : (m p == 0) ≡ false = ground arith in
    let later : NoNul m (p + 1) n = λ i l e. q (suc i) (omega arith) (ap m (omega arith) ∙ e) in
    rw (more, find_nul-none m n (p + 1) later) refl

-- The NUL at byte `i` of the word at `a` sets its flag, so that the `n` bytes from `p` on are tested.
test_bytes-found :
    (m : Memory) (a i n p k : ℕ)
    → IsBytes m
    → i < 8
    → a + i ≡ p + k
    → k < n
    → NoNul m p k
    → m (p + k) ≡ 0
    → test_bytes m (word_at m a) n p ≡ some (p + k)
test_bytes-found m a i n p k b l e h q z =
    let set : flag (word_at m a) ≢ 0 = λ f. flag-NoNul m a b f i l (ap m e ∙ z) in
    let tested : (flag (word_at m a) == 0) ≡ false = ground arith in
    rw (tested, find_nul-found m n p k h q z) refl

test_bytes-none : (m : Memory) (w n p : ℕ) → NoNul m p n → test_bytes m w n p ≡ none
test_bytes-none m w n p q = elim (Bool-cases (flag w == 0)) [
  | inl e ↦ rw e refl
  | inr e ↦ rw (e, find_nul-none m n p q) refl
]

-- The rounds of the second loop, a word each, up to the word of the NUL.
word_loop_lem :
    (fuel : ℕ) (m : Memory) (str lp k : ℕ)
    → IsBytes m
    → k < 8 * fuel
    → NoNul m lp k
    → m (lp + k) ≡ 0
    → word_loop fuel m str lp ≡ ret (lp + k - str)
unfolding word_loop
word_loop_lem zero m str lp k b h q z = absurd (omega arith)
word_loop_lem (suc fuel) m str lp k b h q z = elim (Bool-cases (ltb k 8)) [
  | inl near ↦
      let below : k < 8 = ground arith in
      rw (word_loop, test_bytes-found m lp k 8 lp k b below refl below q z) refl
  | inr far ↦
      let above : 8 ≤ k = ground arith in
      let here : NoNul m lp 8 = λ i l. q i (omega arith) in
      let later : NoNul m (lp + 8) (k - 8) =
        λ i l e. q (8 + i) (omega arith) (ap m (omega arith) ∙ e) in
      let there : m (lp + 8 + (k - 8)) ≡ 0 = ap m (omega arith) ∙ z in
      rw
        (
          word_loop,
          test_bytes-none m (word_at m lp) 8 lp here,
          word_loop_lem fuel m str (lp + 8) (k - 8) b (omega arith) later there,
        )
        (ap ret (omega arith))
]

-- In a memory of bytes, from any address and whatever stands before it in its word, the function
-- returns the distance to the first NUL, and does so within one round for each eight bytes of it.
pub vlen_lem :
    (fuel : ℕ) (m : Memory) (str n : ℕ)
    → IsBytes m
    → NoNul m str n
    → m (str + n) ≡ 0
    → n < 8 * fuel
    → vlen fuel m str ≡ ret n
unfolding vlen
vlen_lem fuel m str n b q z h =
    let lp = str - str % 8 in
    elim (Bool-cases (ltb n (lp + 8 - str))) [
      | inl near ↦
          let below : n < lp + 8 - str = ground arith in
          rw
            (
              vlen,
              test_bytes-found m lp (str % 8 + n) (lp + 8 - str) str n b (omega arith) (omega arith)
                  below q z,
            )
            (ap ret (omega arith))
      | inr far ↦
          let above : lp + 8 - str ≤ n = ground arith in
          let here : NoNul m str (lp + 8 - str) = λ i l. q i (omega arith) in
          let k = str + n - (lp + 8) in
          let later : NoNul m (lp + 8) k =
            λ i l e. q (lp + 8 - str + i) (omega arith) (ap m (omega arith) ∙ e) in
          let there : m (lp + 8 + k) ≡ 0 = ap m (omega arith) ∙ z in
          rw
            (
              vlen,
              test_bytes-none m (word_at m lp) (lp + 8 - str) str here,
              word_loop_lem fuel m str (lp + 8) k b (omega arith) later there,
            )
            (ap ret (omega arith))
    ]
