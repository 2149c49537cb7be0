-- ===== src/CString.antt =====
-- firmware/string.c. The loops that run to a NUL or to a difference take fuel and answer `none`
-- when it runs out; those that count down recur on the count. `char` is unsigned, as on RISC-V.
-- An `int` argument that is used as a character is given by its bit pattern.
pub mod Length
pub mod Compare
pub mod Search
pub mod Copy
use zstage.Base.{
  ℕ, zero, suc, ◌+◌, ◌-◌, ◌%◌, ◌^◌, not, ◌&&◌, Option, none, some, ◌==◌, ltb, if◌then◌else◌, ℤ,
  sub_ℕ, pos,
}
use zstage.Memory.{Memory, store}

-- `strcmp`: the loop goes on while the characters are equal and not NUL.
pub strcmp : ℕ → Memory → (a b : ℕ) → Option ℤ
strcmp zero m a b = none
strcmp (suc fuel) m a b =
    let next = strcmp fuel m (a + 1) (b + 1) in
    if (m a == m b) && not (m a == 0) then next else some (sub_ℕ (m a) (m b))

pub strncmp : Memory → (a b count : ℕ) → ℤ
strncmp m a b zero = pos 0
strncmp m a b (suc count) =
    let next = strncmp m (a + 1) (b + 1) count in
    if (m a == m b) && not (m a == 0) then next else sub_ℕ (m a) (m b)

strlen_loop : ℕ → Memory → (str ret : ℕ) → Option ℕ
strlen_loop zero m str ret = none
strlen_loop (suc fuel) m str ret =
    let next = strlen_loop fuel m (str + 1) (ret + 1) in if m str == 0 then some ret else next

pub strlen : ℕ → Memory → (str : ℕ) → Option ℕ
unfolding strlen_loop
strlen fuel m str = strlen_loop fuel m str 0

-- The source counts `ret` up and `count` down, and compares the two.
strnlen_loop : Memory → (str count ret : ℕ) → ℕ
strnlen_loop m str zero ret = ret
strnlen_loop m str (suc count) ret =
    let next = strnlen_loop m (str + 1) count (ret + 1) in
    if not (m str == 0) && ltb ret (suc count) then next else ret

pub strnlen : Memory → (str count : ℕ) → ℕ
unfolding strnlen_loop
strnlen m str count = strnlen_loop m str count 0

-- Both copies return `dest`; the model returns the memory.
pub strcpy : ℕ → Memory → (dest src : ℕ) → Option Memory
strcpy zero m dest src = none
strcpy (suc fuel) m dest src =
    let next = strcpy fuel (store m dest (m src)) (dest + 1) (src + 1) in
    if m src == 0 then some m else next

pub strncpy : Memory → (dest src count : ℕ) → Memory
strncpy m dest src zero = m
strncpy m dest src (suc count) =
    let next = strncpy (store m dest (m src)) (dest + 1) (src + 1) count in
    if m src == 0 then m else next

-- The outer `Option` is the fuel; the inner one is the pointer, `none` for NULL.
pub strchr : ℕ → Memory → (s c : ℕ) → Option (Option ℕ)
strchr zero m s c = none
strchr (suc fuel) m s c =
    let next = strchr fuel m (s + 1) c in
    if not (m s == 0) && not (m s == c % 2 ^ 8)
    then next
    else some (if m s == 0 then none else some s)

-- The loop from `last` down to `s`; `left` is `last - s`.
strrchr_loop : Memory → (left last c : ℕ) → ℕ
strrchr_loop m zero last c = last
strrchr_loop m (suc left) last c =
    let next = strrchr_loop m left (last - 1) c in if not (m last == c % 2 ^ 8) then next else last

pub strrchr : ℕ → Memory → (s c : ℕ) → Option (Option ℕ)
unfolding strrchr_loop strlen
strrchr fuel m s c = elim (strlen fuel m s) [
  | none ↦ none
  | some n ↦
      let last = strrchr_loop m n (s + n) c in
      some (if not (m last == c % 2 ^ 8) then none else some last)
]

unfoldable pub memset : Memory → (s c count : ℕ) → Memory
memset m s c zero = m
memset m s c (suc count) = memset (store m s c) (s + 1) c count

unfoldable pub memcpy : Memory → (dest src count : ℕ) → Memory
memcpy m dest src zero = m
memcpy m dest src (suc count) = memcpy (store m dest (m src)) (dest + 1) (src + 1) count

-- `*temp1-- = *temp2--`, `count` times.
memmove_down : Memory → (temp1 temp2 count : ℕ) → Memory
memmove_down m temp1 temp2 zero = m
memmove_down m temp1 temp2 (suc count) =
    memmove_down (store m temp1 (m temp2)) (temp1 - 1) (temp2 - 1) count

-- The upward loop of `memmove` is that of `memcpy`.
pub memmove : Memory → (dest src count : ℕ) → Memory
unfolding memmove_down memcpy
memmove m dest src count =
    if src == dest
    then m
    else if ltb dest src
    then memcpy m dest src count
    else memmove_down m (dest + count - 1) (src + count - 1) count

pub memcmp : Memory → (s1 s2 count : ℕ) → ℤ
memcmp m s1 s2 zero = pos 0
memcmp m s1 s2 (suc count) =
    let next = memcmp m (s1 + 1) (s2 + 1) count in
    if m s1 == m s2 then next else sub_ℕ (m s1) (m s2)

pub memchr : Memory → (s c count : ℕ) → Option ℕ
memchr m s c zero = none
memchr m s c (suc count) =
    let next = memchr m (s + 1) c count in if c % 2 ^ 8 == m s then some s else next
