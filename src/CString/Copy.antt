-- ===== src/CString/Copy.antt =====
-- strcpy, strncpy, memset, memcpy and memmove of firmware/string.c.
use zstage.Base.{
  ℕ, zero, suc, ◌+◌, ◌-◌, ◌%◌, ◌^◌, ◌<◌, ◌≤◌, ◌≡◌, ◌⊎◌, Bool, ◌&&◌, some, List, [], ◌∷◌, arith,
  length, min, leb, ltb, if◌then◌else◌,
}
use zstage.Memory.{Memory, IsText, IsBytes, store}
use zstage.CString.{strcpy, strncpy, memset, memcpy, memmove, memmove_down}

-- The address `q` lies in the `n` bytes from `p` on.
abbrev pub within : (p n q : ℕ) → Bool
within p n q = leb p q && ltb q (p + n)

-- `m` with the `n` bytes from `src` on copied to `dest`, as they were in `m`.
abbrev pub moved : Memory → (dest src n : ℕ) → Memory
moved m dest src n q = if within dest n q then m (src + (q - dest)) else m q

store-IsBytes : (m : Memory) (p v : ℕ) → IsBytes m → IsBytes (store m p v)
unfolding store
store-IsBytes m p v b q = ground (arith, b q)

-- `memset` sets the `count` bytes from `s` on to the low byte of `c`, and no other byte.
pub memset_lem :
    (count : ℕ) (m : Memory) (s c q : ℕ)
    → memset m s c count q ≡ (if within s count q then c % 2 ^ 8 else m q)
unfolding memset store
memset_lem zero m s c q = ground arith
memset_lem (suc count) m s c q = ground (arith, memset_lem count (store m s c) (s + 1) c q)

-- Where the destination does not begin inside the source, `memcpy` copies the `count` bytes as
-- they were, and writes no other byte.
pub memcpy-moved :
    (count : ℕ) (m : Memory) (dest src q : ℕ)
    → IsBytes m
    → (dest ≤ src) ⊎ (src + count ≤ dest)
    → memcpy m dest src count q ≡ moved m dest src count q
unfolding memcpy store
memcpy-moved zero m dest src q b h = ground arith
memcpy-moved (suc count) m dest src q b h = ground (
  arith,
  memcpy-moved count (store m dest (m src)) (dest + 1) (src + 1) q (store-IsBytes m dest (m src) b),
  b src,
)

memmove_down-moved :
    (count : ℕ) (m : Memory) (dest src q : ℕ)
    → IsBytes m
    → src ≤ dest
    → memmove_down m (dest + count - 1) (src + count - 1) count q ≡ moved m dest src count q
unfolding memmove_down store
memmove_down-moved zero m dest src q b h = ground arith
memmove_down-moved (suc count) m dest src q b h =
    let to : dest + suc count - 1 ≡ dest + count = omega arith in
    let from : src + suc count - 1 ≡ src + count = omega arith in
    let stored = store m (dest + count) (m (src + count)) in
    rw (to, from)
      (ground (
        arith,
        memmove_down-moved count stored dest src q
            (store-IsBytes m (dest + count) (m (src + count)) b),
        b (src + count),
      ))

-- `memmove` copies the `count` bytes as they were and writes no other byte, however the two
-- ranges overlap.
pub memmove-moved :
    (count : ℕ) (m : Memory) (dest src q : ℕ)
    → IsBytes m
    → memmove m dest src count q ≡ moved m dest src count q
unfolding memmove
memmove-moved count m dest src q b =
    ground (arith, memcpy-moved count m dest src q b, memmove_down-moved count m dest src q b)

IsText-store :
    (m : Memory) (p q v : ℕ) (s : List ℕ)
    → IsText m p s
    → (q < p) ⊎ (p + length s < q)
    → IsText (store m q v) p s
unfolding store
IsText-store m p q v [] h o = ground arith
IsText-store m p q v (c ∷ s) h o =
    (h.0, ground arith, IsText-store m (p + 1) q v s h.2 (ground arith))

strcpy-memcpy :
    (fuel : ℕ) (m : Memory) (dest src : ℕ) (s : List ℕ)
    → IsText m src s
    → (dest ≤ src) ⊎ (src + length s < dest)
    → length s < fuel
    → strcpy fuel m dest src ≡ some (memcpy m dest src (length s))
unfolding strcpy memcpy
strcpy-memcpy zero m dest src s h o f = absurd (omega arith)
strcpy-memcpy (suc fuel) m dest src [] h o f = ground arith
strcpy-memcpy (suc fuel) m dest src (c ∷ s) h o f =
    let rest =
      strcpy-memcpy fuel (store m dest (m src)) (dest + 1) (src + 1) s
        (IsText-store m (src + 1) dest (m src) s h.2 (ground arith)) (ground arith) (omega arith) in
    ground arith

-- With more fuel than characters, and a destination that does not begin in the source, `strcpy`
-- copies the characters before the NUL and writes no other byte: the NUL is not copied.
pub strcpy-moved :
    (fuel : ℕ) (m : Memory) (dest src : ℕ) (s : List ℕ)
    → IsBytes m
    → IsText m src s
    → (dest ≤ src) ⊎ (src + length s < dest)
    → length s < fuel
    → (m' : Memory) × (strcpy fuel m dest src ≡ some m')
      × ((q : ℕ) → m' q ≡ moved m dest src (length s) q)
strcpy-moved fuel m dest src s b h o f = (
  memcpy m dest src (length s),
  strcpy-memcpy fuel m dest src s h o f,
  λ q. memcpy-moved (length s) m dest src q b (ground arith),
)

strncpy-memcpy :
    (count : ℕ) (m : Memory) (dest src : ℕ) (s : List ℕ)
    → IsText m src s
    → (dest ≤ src) ⊎ (src + length s < dest)
    → strncpy m dest src count ≡ memcpy m dest src (min (length s) count)
unfolding strncpy memcpy
strncpy-memcpy zero m dest src s h o =
    let none_left : min (length s) 0 ≡ 0 = omega arith in rw none_left
strncpy-memcpy (suc count) m dest src [] h o =
    let none_left : min 0 (suc count) ≡ 0 = omega arith in rw none_left (ground arith)
strncpy-memcpy (suc count) m dest src (c ∷ s) h o =
    let one_more : min (suc (length s)) (suc count) ≡ suc (min (length s) count) = omega arith in
    let rest =
      strncpy-memcpy count (store m dest (m src)) (dest + 1) (src + 1) s
        (IsText-store m (src + 1) dest (m src) s h.2 (ground arith)) (ground arith) in
    rw one_more (ground arith)

-- Where the destination does not begin in the source, `strncpy` copies the characters before the
-- NUL, at most `count` of them, and writes no other byte: it neither copies the NUL nor pads.
pub strncpy-moved :
    (count : ℕ) (m : Memory) (dest src q : ℕ) (s : List ℕ)
    → IsBytes m
    → IsText m src s
    → (dest ≤ src) ⊎ (src + length s < dest)
    → strncpy m dest src count q ≡ moved m dest src (min (length s) count) q
strncpy-moved count m dest src q s b h o =
    rw (strncpy-memcpy count m dest src s h o)
      (memcpy-moved (min (length s) count) m dest src q b (ground arith))
