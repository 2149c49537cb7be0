-- ===== src/CString/Length.antt =====
-- strlen and strnlen of firmware/string.c.
use zstage.Base.{ℕ, zero, suc, ◌+◌, ◌-◌, ◌/◌, ◌<◌, ◌≡◌, some, List, [], ◌∷◌, min, arith, length}
use zstage.Memory.{Memory, IsText}
use zstage.CString.{strlen, strlen_loop, strnlen, strnlen_loop}

strlen_loop-length :
    (fuel : ℕ) (m : Memory) (p ret : ℕ) (s : List ℕ)
    → IsText m p s
    → length s < fuel
    → strlen_loop fuel m p ret ≡ some (ret + length s)
unfolding strlen_loop
strlen_loop-length zero m p ret s h f = absurd (omega arith)
strlen_loop-length (suc fuel) m p ret [] h f = ground arith
strlen_loop-length (suc fuel) m p ret (c ∷ s) h f =
    ground (arith, strlen_loop-length fuel m (p + 1) (ret + 1) s)

-- With more fuel than characters, `strlen` returns the number of characters before the NUL.
pub strlen-length :
    (fuel : ℕ) (m : Memory) (p : ℕ) (s : List ℕ)
    → IsText m p s
    → length s < fuel
    → strlen fuel m p ≡ some (length s)
unfolding strlen
strlen-length fuel m p s h f = ground (arith, strlen_loop-length fuel m p 0 s)

strnlen_loop-min :
    (count : ℕ) (m : Memory) (p ret : ℕ) (s : List ℕ)
    → IsText m p s
    → strnlen_loop m p count ret ≡ ret + min (length s) ((count + 1 - ret) / 2)
unfolding strnlen_loop
strnlen_loop-min zero m p ret s h = omega arith
strnlen_loop-min (suc count) m p ret [] h = ground arith
strnlen_loop-min (suc count) m p ret (c ∷ s) h =
    ground (arith, strnlen_loop-min count m (p + 1) (ret + 1) s)

-- `strnlen` stops at half of `count`, rounded up, where the string is longer: the loop counts
-- `count` down while it compares it with the growing result.
pub strnlen-min :
    (m : Memory) (p count : ℕ) (s : List ℕ)
    → IsText m p s
    → strnlen m p count ≡ min (length s) ((count + 1) / 2)
unfolding strnlen
strnlen-min m p count s h = omega (arith, strnlen_loop-min count m p 0 s h)
