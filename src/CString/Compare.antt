-- ===== src/CString/Compare.antt =====
-- strcmp, strncmp and memcmp of firmware/string.c.
use zstage.Base.{
  ℕ, zero, suc, ◌+◌, ◌<◌, ◌≡◌, ◌↔◌, refl, some, List, [], ◌∷◌, arith, length, ◌==◌, if◌then◌else◌,
  ℤ, pos, sub_ℕ, take,
}
use zstage.Memory.{Memory, IsText, bytes}
use zstage.CString.{strcmp, strncmp, memcmp}

-- The order of two strings: the difference of the first characters that differ, a missing
-- character counting as 0.
pub compare_text : List ℕ → List ℕ → ℤ
compare_text [] [] = pos 0
compare_text [] (d ∷ t) = sub_ℕ 0 d
compare_text (c ∷ s) [] = sub_ℕ c 0
compare_text (c ∷ s) (d ∷ t) = if c == d then compare_text s t else sub_ℕ c d

-- With more fuel than characters in the first string, `strcmp` returns the order of the strings.
pub strcmp-compare_text :
    (fuel : ℕ) (m : Memory) (a b : ℕ) (s t : List ℕ)
    → IsText m a s
    → IsText m b t
    → length s < fuel
    → strcmp fuel m a b ≡ some (compare_text s t)
unfolding strcmp compare_text
strcmp-compare_text zero m a b s t h k f = absurd (omega arith)
strcmp-compare_text (suc fuel) m a b [] [] h k f = ground arith
strcmp-compare_text (suc fuel) m a b [] (d ∷ t) h k f = ground arith
strcmp-compare_text (suc fuel) m a b (c ∷ s) [] h k f = ground arith
strcmp-compare_text (suc fuel) m a b (c ∷ s) (d ∷ t) h k f =
    ground (arith, strcmp-compare_text fuel m (a + 1) (b + 1) s t)

compare_text_self : (s : List ℕ) → compare_text s s ≡ pos 0
unfolding compare_text
compare_text_self [] = refl
compare_text_self (c ∷ s) = ground (arith, compare_text_self s)

-- `All`-nonzero strings compare as 0 only if they are equal.
eq_of_compare_text :
    (m n : Memory) (a b : ℕ) (s t : List ℕ)
    → IsText m a s
    → IsText n b t
    → compare_text s t ≡ pos 0
    → s ≡ t
unfolding compare_text
eq_of_compare_text m n a b [] [] h k e = refl
eq_of_compare_text m n a b [] (d ∷ t) h k e = ground arith
eq_of_compare_text m n a b (c ∷ s) [] h k e = ground arith
eq_of_compare_text m n a b (c ∷ s) (d ∷ t) h k e =
    ground (arith, eq_of_compare_text m n (a + 1) (b + 1) s t)

-- With more fuel than characters in the first string, `strcmp` returns 0 exactly when the two
-- strings are equal.
pub strcmp-eq_iff :
    (fuel : ℕ) (m : Memory) (a b : ℕ) (s t : List ℕ)
    → IsText m a s
    → IsText m b t
    → length s < fuel
    → (strcmp fuel m a b ≡ some (pos 0)) ↔ (s ≡ t)
strcmp-eq_iff fuel m a b s t h k f = (
  λ e. eq_of_compare_text m m a b s t h k (ground (arith, strcmp-compare_text fuel m a b s t)),
  λ e. ground (arith, strcmp-compare_text fuel m a b s t h k, compare_text_self s),
)

-- `strncmp` is the order of the first `count` characters of the strings.
pub strncmp-compare_text :
    (count : ℕ) (m : Memory) (a b : ℕ) (s t : List ℕ)
    → IsText m a s
    → IsText m b t
    → strncmp m a b count ≡ compare_text (take count s) (take count t)
unfolding strncmp compare_text
strncmp-compare_text zero m a b s t h k = refl
strncmp-compare_text (suc count) m a b [] [] h k = ground arith
strncmp-compare_text (suc count) m a b [] (d ∷ t) h k = ground arith
strncmp-compare_text (suc count) m a b (c ∷ s) [] h k = ground arith
strncmp-compare_text (suc count) m a b (c ∷ s) (d ∷ t) h k =
    ground (arith, strncmp-compare_text count m (a + 1) (b + 1) s t)

-- `memcmp` returns 0 exactly when the two ranges hold the same bytes.
pub memcmp-eq_iff :
    (count : ℕ) (m : Memory) (a b : ℕ)
    → (memcmp m a b count ≡ pos 0) ↔ (bytes m a count ≡ bytes m b count)
unfolding memcmp
memcmp-eq_iff zero m a b = (λ e. refl, λ e. refl)
memcmp-eq_iff (suc count) m a b = ground (arith, memcmp-eq_iff count m (a + 1) (b + 1))
