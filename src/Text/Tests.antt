-- ===== src/Text/Tests.antt =====
-- The string "orbit" in memory and as a list.
use dmmr_orbit.Base.{
  ℕ, zero, suc, ◌+◌, ◌<◌, ◌≡◌, ◌≢◌, refl, sym, ap, ◌∙◌, arith, List, [], ◌∷◌, ◌++◌, get_or, ret,
  take, length,
}
use dmmr_orbit.Base.Sort.{All}
use dmmr_orbit.Bytes.{Memory}
use dmmr_orbit.Text.{vlen, strlcpy}
use dmmr_orbit.Text.Length.{IsBytes, NoNul, vlen_lem}
use dmmr_orbit.Text.Copy.{strlcpy_lem}

abbrev orbit : List ℕ
orbit = 111 ∷ 114 ∷ 98 ∷ 105 ∷ 116 ∷ []

strlcpy_example :
    (strlcpy (orbit ++ (0 ∷ [])) 0 ≡ ret ([], length orbit))
    × (strlcpy (orbit ++ (0 ∷ [])) 4 ≡ ret (take 3 orbit ++ (0 ∷ []), length orbit))
strlcpy_example = strlcpy_lem orbit 3 (
  (λ e. omega arith),
  ((λ e. omega arith), ((λ e. omega arith), ((λ e. omega arith), ((λ e. omega arith), tt)))),
)

-- The string stands at address 3, behind three bytes of zero.
abbrev bytes : List ℕ
bytes = 0 ∷ 0 ∷ 0 ∷ orbit

abbrev memory : Memory
memory a = get_or bytes a 0

get_or-bytes : (l : List ℕ) → All (λ b. b < 256) l → (a : ℕ) → get_or l a 0 < 256
get_or-bytes [] h a = omega arith
get_or-bytes (b ∷ l) h zero = h.0
get_or-bytes (b ∷ l) h (suc a) = get_or-bytes l h.1 a

memory-IsBytes : IsBytes memory
memory-IsBytes = get_or-bytes bytes (
  omega arith,
  (
    omega arith,
    (omega arith, (omega arith, (omega arith, (omega arith, (omega arith, (omega arith, tt)))))),
  ),
)

five : (i : ℕ) → i < 5 → get_or orbit i 0 ≢ 0
five zero h e = omega arith
five (suc zero) h e = omega arith
five (suc (suc zero)) h e = omega arith
five (suc (suc (suc zero))) h e = omega arith
five (suc (suc (suc (suc zero)))) h e = omega arith
five (suc (suc (suc (suc (suc i))))) h e = omega arith

memory-NoNul : NoNul memory 3 5
memory-NoNul i h e =
    let shift : 3 + i ≡ suc (suc (suc i)) = omega arith in five i h (sym (ap memory shift) ∙ e)

vlen_example : vlen 1 memory 3 ≡ ret 5
vlen_example = vlen_lem 1 memory 3 5 memory-IsBytes memory-NoNul refl (omega arith)
