-- ===== src/Entry/Words.antt =====
-- Loads and stores of several bytes, against copies of bytes.
use zstage.Base.{
  ℕ, zero, suc, ◌+◌, ◌-◌, ◌*◌, ◌/◌, ◌%◌, ◌^◌, ◌<◌, ◌≤◌, ◌≡◌, ◌⊎◌, refl, arith, if◌then◌else◌,
}
use zstage.Memory.{Memory, IsBytes, store}
use zstage.CString.Copy.{within}
use zstage.Entry.{load_bytes, store_bytes}

pub store_bytes-IsBytes : (n : ℕ) (m : Memory) (p v : ℕ) → IsBytes m → IsBytes (store_bytes n m p v)
unfolding store_bytes store
store_bytes-IsBytes zero m p v b = b
store_bytes-IsBytes (suc n) m p v b =
    store_bytes-IsBytes n (store m p v) (p + 1) (v / 2 ^ 8) (λ q. ground (arith, b q))

pub store_bytes-away :
    (n : ℕ) (m : Memory) (p v q : ℕ) → (q < p) ⊎ (p + n ≤ q) → store_bytes n m p v q ≡ m q
unfolding store_bytes store
store_bytes-away zero m p v q h = ground arith
store_bytes-away (suc n) m p v q h =
    ground (arith, store_bytes-away n (store m p v) (p + 1) (v / 2 ^ 8) q)

pub load_bytes-cong :
    (n : ℕ) (m m' : Memory) (p : ℕ)
    → ((q : ℕ) → p ≤ q → q < p + n → m q ≡ m' q)
    → load_bytes n m p ≡ load_bytes n m' p
unfolding load_bytes
load_bytes-cong zero m m' p h = ground arith
load_bytes-cong (suc n) m m' p h = ground (
  arith,
  h p (omega arith) (omega arith),
  load_bytes-cong n m m' (p + 1) (λ q lo hi. h q (omega arith) (omega arith)),
)

-- What is loaded is what stands there, so a store of it is a copy.
pub store_bytes-load_bytes :
    (n : ℕ) (m m0 : Memory) (p s q : ℕ)
    → IsBytes m0
    → store_bytes n m p (load_bytes n m0 s) q ≡ (if within p n q then m0 (s + (q - p)) else m q)
unfolding store_bytes load_bytes store
store_bytes-load_bytes zero m m0 p s q b = ground arith
store_bytes-load_bytes (suc n) m m0 p s q b =
    let word = m0 s + 2 ^ 8 * load_bytes n m0 (s + 1) in
    let high : word / 2 ^ 8 ≡ load_bytes n m0 (s + 1) = omega (arith, b s) in
    let low : word % 2 ^ 8 ≡ m0 s = omega (arith, b s) in
    rw high (ground (arith, low, store_bytes-load_bytes n (store m p word) m0 (p + 1) (s + 1) q b))

-- How many values `n` bytes have.
abbrev pub values : (n : ℕ) → ℕ
values zero = 1
values (suc n) = 2 ^ 8 * values n

-- A word that was stored is loaded again.
pub load_bytes-store_bytes :
    (n : ℕ) (m : Memory) (p v : ℕ) → v < values n → load_bytes n (store_bytes n m p v) p ≡ v
unfolding load_bytes store_bytes store
load_bytes-store_bytes zero m p v h = omega arith
load_bytes-store_bytes (suc n) m p v h = ground (
  arith,
  store_bytes-away n (store m p v) (p + 1) (v / 2 ^ 8) p,
  load_bytes-store_bytes n (store m p v) (p + 1) (v / 2 ^ 8),
)

pub load_bytes-lt : (n : ℕ) (m : Memory) (p : ℕ) → IsBytes m → load_bytes n m p < values n
unfolding load_bytes
load_bytes-lt zero m p b = omega arith
load_bytes-lt (suc n) m p b = omega (arith, b p, load_bytes-lt n m (p + 1) b)

-- A word away from what is stored is left as it was.
pub load_bytes-away :
    (n k : ℕ) (m : Memory) (p v q : ℕ)
    → (q + k ≤ p) ⊎ (p + n ≤ q)
    → load_bytes k (store_bytes n m p v) q ≡ load_bytes k m q
load_bytes-away n k m p v q h =
    load_bytes-cong k _ _ q (λ r lo hi. store_bytes-away n m p v r (ground arith))

pub store_bytes_zero :
    (n : ℕ) (m : Memory) (p q : ℕ) → store_bytes n m p 0 q ≡ (if within p n q then 0 else m q)
unfolding store_bytes store
store_bytes_zero zero m p q = ground arith
store_bytes_zero (suc n) m p q = ground (arith, store_bytes_zero n (store m p 0) (p + 1) q)

-- The same bytes at two places are the same word.
pub load_bytes-shift :
    (n : ℕ) (m m' : Memory) (p p' : ℕ)
    → ((i : ℕ) → i < n → m (p + i) ≡ m' (p' + i))
    → load_bytes n m p ≡ load_bytes n m' p'
unfolding load_bytes
load_bytes-shift zero m m' p p' h = refl
load_bytes-shift (suc n) m m' p p' h =
    let first : m p ≡ m' p' =
      let at : p + 0 ≡ p = omega arith in
      let at' : p' + 0 ≡ p' = omega arith in rw (← at, ← at') (h 0 (omega arith)) in
    let rest = load_bytes-shift n m m' (p + 1) (p' + 1) (λ i lt.
      let at : p + 1 + i ≡ p + (1 + i) = omega arith in
      let at' : p' + 1 + i ≡ p' + (1 + i) = omega arith in
      rw (at, at') (h (1 + i) (omega arith))) in
    rw (first, rest) refl
