-- ===== src/Memory.antt =====
-- The memory that the firmware runs in: a flat array of bytes, since it runs on physical
-- addresses. An address is a number; an object never wraps round the end of the address space.
use zstage.Base.{
  ℕ, zero, suc, ◌+◌, ◌%◌, ◌^◌, ◌<◌, ◌≡◌, ◌≢◌, List, [], ◌∷◌, ◌++◌, ◌==◌, if◌then◌else◌,
}

abbrev pub Memory : Type 0
Memory = ℕ → ℕ

-- `*(char *)p = v`: the store cuts the value to a byte.
unfoldable pub store : Memory → ℕ → ℕ → Memory
store m p v q = if q == p then v % 2 ^ 8 else m q

-- The bytes `xs` stand at `p`.
abbrev pub Holds : Memory → ℕ → List ℕ → Type 0
Holds m p [] = Unit {0}
Holds m p (x ∷ xs) = (m p ≡ x) × Holds m (p + 1) xs

-- A string without NUL, with its NUL, stands at `p`.
abbrev pub IsText : Memory → ℕ → List ℕ → Type 0
IsText m p [] = m p ≡ 0
IsText m p (c ∷ cs) = (c ≢ 0) × (m p ≡ c) × IsText m (p + 1) cs

-- The `n` bytes from `p` on.
abbrev pub bytes : Memory → ℕ → ℕ → List ℕ
bytes m p zero = []
bytes m p (suc n) = m p ∷ bytes m (p + 1) n

abbrev pub IsBytes : Memory → Type 0
IsBytes m = (p : ℕ) → m p < 2 ^ 8

pub IsText-Holds : (m : Memory) (p : ℕ) (s : List ℕ) → IsText m p s → Holds m p (s ++ (0 ∷ []))
IsText-Holds m p [] h = (h, tt)
IsText-Holds m p (c ∷ cs) h = (h.1, IsText-Holds m (p + 1) cs h.2)
