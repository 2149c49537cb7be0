-- ===== src/Entry/Harts/Phases.antt =====
-- How far a hart of firmware/head.S has come, and how many have drawn from the lottery.
use zstage.Base.{ℕ, zero, suc, ◌+◌, ◌<◌, ◌≤◌, ◌≡◌, refl, Bool, true, false, ◌==◌, arith}
use native.Mathlib.Decide.{dec_lt}
use zstage.Entry.Harts.{
  Pc, start, relocating, relocated, marked, in_main, returned, released, entered, spinning, jumped,
  set_at,
}

-- Behind the lottery.
unfoldable pub drawn : Pc → ℕ
drawn start = 0
drawn p = 1

-- The hart that boots.
abbrev pub is_boot : Pc → Bool
is_boot relocating = true
is_boot relocated = true
is_boot marked = true
is_boot in_main = true
is_boot returned = true
is_boot released = true
is_boot entered = true
is_boot p = false

-- Code at the run address.
abbrev pub in_copy : Pc → Bool
in_copy relocated = true
in_copy marked = true
in_copy in_main = true
in_copy returned = true
in_copy released = true
in_copy entered = true
in_copy spinning = true
in_copy (jumped addr) = true
in_copy p = false

-- Behind zstage_main.
abbrev pub is_after_main : Pc → Bool
is_after_main returned = true
is_after_main released = true
is_after_main entered = true
is_after_main p = false

-- Behind the mark of a complete copy.
abbrev pub is_marked : Pc → Bool
is_marked marked = true
is_marked in_main = true
is_marked returned = true
is_marked released = true
is_marked entered = true
is_marked p = false

-- Behind the release of the other harts.
abbrev pub is_released : Pc → Bool
is_released released = true
is_released entered = true
is_released p = false

unfoldable pub draws : (n : ℕ) → (ℕ → Pc) → ℕ
draws zero pc = 0
draws (suc n) pc = draws n pc + drawn (pc n)

drawn-le : (p : Pc) → drawn p ≤ 1
unfolding drawn
drawn-le start = omega arith
drawn-le p = omega arith

pub draws-le : (n : ℕ) (pc : ℕ → Pc) → draws n pc ≤ n
unfolding draws
draws-le zero pc = omega arith
draws-le (suc n) pc = omega (arith, draws-le n pc, drawn-le (pc n))

draws-set_at_beyond :
    (n : ℕ) (pc : ℕ → Pc) (i : ℕ) (p : Pc) → n ≤ i → draws n (set_at pc i p) ≡ draws n pc
unfolding draws
draws-set_at_beyond zero pc i p h = refl
draws-set_at_beyond (suc n) pc i p h = ground (arith, draws-set_at_beyond n pc i p)

pub draws-set_at :
    (n : ℕ) (pc : ℕ → Pc) (i : ℕ) (p : Pc)
    → i < n
    → draws n (set_at pc i p) + drawn (pc i) ≡ draws n pc + drawn p
unfolding draws
draws-set_at zero pc i p h = absurd (omega arith)
draws-set_at (suc n) pc i p h = elim (dec_lt i n) [
  | yes below ↦
      let other : (i == n) ≡ false = ground arith in
      rw other (omega (arith, draws-set_at n pc i p below))
  | no last ↦
      let here : i ≡ n = omega arith in
      let same : (n == n) ≡ true = ground arith in
      rw (here, same) (omega (arith, draws-set_at_beyond n pc n p))
]

pub draws-start : (n : ℕ) → draws n (λ i. start) ≡ 0
unfolding draws drawn
draws-start zero = refl
draws-start (suc n) = omega (arith, draws-start n)
