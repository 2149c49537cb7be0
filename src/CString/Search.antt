-- ===== src/CString/Search.antt =====
-- strchr, strrchr and memchr of firmware/string.c.
use zstage.Base.{
  ℕ, zero, suc, ◌+◌, ◌-◌, ◌%◌, ◌^◌, ◌<◌, ◌≤◌, ◌≡◌, ◌≢◌, inl, inr, refl, Option, none, some, List,
  [], ◌∷◌, arith, length, ◌==◌, if◌then◌else◌, Bool-cases,
}
use mathlib.Core.Option
use zstage.Memory.{Memory, IsText, bytes}
use zstage.CString.{strchr, strrchr, strrchr_loop, memchr}
use zstage.CString.Length.{strlen-length}

-- The position of the first `c` in a list.
abbrev pub index_of : ℕ → List ℕ → Option ℕ
index_of c [] = none
index_of c (x ∷ xs) = if c == x then some 0 else Option.map suc (index_of c xs)

-- With more fuel than characters, `strchr` points at the first occurrence of the character in
-- the string, and is NULL where the string has none; so it is NULL for the NUL itself.
pub strchr-index_of :
    (fuel : ℕ) (m : Memory) (p c : ℕ) (s : List ℕ)
    → IsText m p s
    → length s < fuel
    → strchr fuel m p c ≡ some (Option.map (λ i. p + i) (index_of (c % 2 ^ 8) s))
unfolding strchr
strchr-index_of zero m p c s h f = absurd (omega arith)
strchr-index_of (suc fuel) m p c [] h f = ground arith
strchr-index_of (suc fuel) m p c (x ∷ s) h f = ground (arith, strchr-index_of fuel m (p + 1) c s)

-- `memchr` points at the first occurrence of the byte in the range, and is NULL where the range
-- has none.
pub memchr-index_of :
    (count : ℕ) (m : Memory) (p c : ℕ)
    → memchr m p c count ≡ Option.map (λ i. p + i) (index_of (c % 2 ^ 8) (bytes m p count))
unfolding memchr
memchr-index_of zero m p c = refl
memchr-index_of (suc count) m p c = ground (arith, memchr-index_of count m (p + 1) c)

-- What `strrchr` promises of its result: the last place of the character in the string, its
-- NUL included, or NULL where there is none.
abbrev pub IsLast : Memory → (p n c : ℕ) → Option ℕ → Type 0
IsLast m p n c none = (q : ℕ) → p ≤ q → q ≤ p + n → m q ≢ c
IsLast m p n c (some q) =
    (p ≤ q) × (q ≤ p + n) × (m q ≡ c) × ((r : ℕ) → q < r → r ≤ p + n → m r ≢ c)

module _ (m : Memory) (c : ℕ) where
  strrchr_loop_bounds :
      (left p : ℕ)
      → (p ≤ strrchr_loop m left (p + left) c) × (strrchr_loop m left (p + left) c ≤ p + left)
  unfolding strrchr_loop
  strrchr_loop_bounds zero p = omega arith
  strrchr_loop_bounds (suc left) p = ground (arith, strrchr_loop_bounds left p)

  strrchr_loop_above :
      (left last r : ℕ) → strrchr_loop m left last c < r → r ≤ last → m r ≢ c % 2 ^ 8
  unfolding strrchr_loop
  strrchr_loop_above zero last r h k = absurd (omega arith)
  strrchr_loop_above (suc left) last r h k = ground (arith, strrchr_loop_above left (last - 1) r)

  strrchr_loop_first :
      (left p : ℕ)
      → m (strrchr_loop m left (p + left) c) ≢ c % 2 ^ 8
      → strrchr_loop m left (p + left) c ≡ p
  unfolding strrchr_loop
  strrchr_loop_first zero p h = omega arith
  strrchr_loop_first (suc left) p h = ground (arith, strrchr_loop_first left p)

  -- What the scan leaves, tested once more as the source does.
  abbrev found : (n p : ℕ) → Option ℕ
  found n p =
      let last = strrchr_loop m n (p + n) c in if m last == c % 2 ^ 8 then some last else none

  found-IsLast : (n p : ℕ) → IsLast m p n (c % 2 ^ 8) (found n p)
  found-IsLast n p = elim (Bool-cases (m (strrchr_loop m n (p + n) c) == c % 2 ^ 8)) [
    | inl hit ↦ rw hit (
      (strrchr_loop_bounds n p).0,
      (strrchr_loop_bounds n p).1,
      ground arith,
      λ r h k. strrchr_loop_above n (p + n) r h k,
    )
    | inr miss ↦
        rw miss (λ q h k. ground (arith, strrchr_loop_first n p, strrchr_loop_above n (p + n) q))
  ]

-- With more fuel than characters, `strrchr` points at the last occurrence of the character in
-- the string with its NUL, and is NULL exactly where there is none.
pub strrchr-IsLast :
    (fuel : ℕ) (m : Memory) (p c : ℕ) (s : List ℕ)
    → IsText m p s
    → length s < fuel
    → (r : Option ℕ) × (strrchr fuel m p c ≡ some r) × IsLast m p (length s) (c % 2 ^ 8) r
unfolding strrchr
strrchr-IsLast fuel m p c s h f = (
  found m c (length s) p,
  ground (arith, strlen-length fuel m p s),
  found-IsLast m c (length s) p,
)
