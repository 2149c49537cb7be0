-- ===== src/Entry/Loops.antt =====
-- What the loops of firmware/head.S do to the memory: they are block copies and a block of zeros.
use zstage.Base.{
  ℕ, zero, suc, ◌+◌, ◌-◌, ◌*◌, ◌^◌, ◌<◌, ◌≡◌, refl, ◌∙◌, arith, if◌then◌else◌, ltb, true, false,
}
use zstage.Memory.{Memory, IsBytes}
use zstage.CString.{memset}
use zstage.CString.Copy.{moved, within, memset_lem}
use zstage.Machine.{Machine, ok}
use zstage.Entry.{
  add, sub, blt, load, save, reg_l, reg_s, sizeof_pointer, copy_to_lower, copy_to_upper, bss_zero,
}
use zstage.Entry.Words.{store_bytes-IsBytes, store_bytes-load_bytes, store_bytes_zero}

-- Below 2^63 the signed comparison is the one of numbers.
pub blt-ltb : (a b : ℕ) → a < 2 ^ 63 → b < 2 ^ 63 → blt a b ≡ ltb a b
unfolding blt
blt-ltb a b ha hb = ground arith

word-moved : (m : Memory) (p s q : ℕ) → IsBytes m → reg_s m p (reg_l m s) q ≡ moved m p s 8 q
word-moved m p s q b = store_bytes-load_bytes 8 m m p s q b

-- A block that follows a word.
moved-after_word :
    (m m' : Memory) (n t0 t2 q : ℕ)
    → IsBytes m
    → t0 < t2
    → m' q ≡ moved (reg_s m t0 (reg_l m t2)) (t0 + 8) (t2 + 8) n q
    → m' q ≡ moved m t0 t2 (8 + n) q
moved-after_word m m' n t0 t2 q b below h =
    ground (arith, word-moved m t0 t2 q b, word-moved m t0 t2 (t2 + 8 + (q - (t0 + 8))) b)

-- Words copied from the front.
pub copy_to_lower-moved :
    (n rounds t0 t1 t2 : ℕ) (m : Machine)
    → IsBytes m.memory
    → t0 < t2
    → t1 ≡ t0 + (8 + 8 * n)
    → t2 + 8 + 8 * n < 2 ^ 63
    → n < rounds
    → (memory' : Memory) × (copy_to_lower rounds t0 t1 t2 m ≡ ok tt (record m { memory = memory' }))
      × ((q : ℕ) → memory' q ≡ moved m.memory t0 t2 (8 + 8 * n) q)
unfolding copy_to_lower load save
copy_to_lower-moved n zero t0 t1 t2 m b below end fits h = absurd (omega arith)
copy_to_lower-moved zero (suc rounds) t0 t1 t2 m b below end fits h =
    let next : add t0 sizeof_pointer ≡ t0 + 8 = omega arith in
    let last : blt (t0 + 8) t1 ≡ false = ground (arith, blt-ltb (t0 + 8) t1) in
    (
      reg_s m.memory t0 (reg_l m.memory t2),
      rw (next, last) refl,
      λ q. word-moved m.memory t0 t2 q b,
    )
copy_to_lower-moved (suc n) (suc rounds) t0 t1 t2 m b below end fits h =
    let next : add t0 sizeof_pointer ≡ t0 + 8 = omega arith in
    let next2 : add t2 sizeof_pointer ≡ t2 + 8 = omega arith in
    let more : blt (t0 + 8) t1 ≡ true = ground (arith, blt-ltb (t0 + 8) t1) in
    let stored = reg_s m.memory t0 (reg_l m.memory t2) in
    let step : copy_to_lower (suc rounds) t0 t1 t2 m
        ≡ copy_to_lower rounds (t0 + 8) t1 (t2 + 8) (record m { memory = stored }) =
      rw (next, next2, more) refl in
    let (memory', ran, there) =
      copy_to_lower-moved n rounds (t0 + 8) t1 (t2 + 8) (record m { memory = stored })
        (store_bytes-IsBytes 8 m.memory t0 (reg_l m.memory t2) b) (omega arith) (omega arith)
        (omega arith) (omega arith) in
    (
      memory',
      step ∙ ran,
      λ q.
          let size : 8 + (8 + 8 * n) ≡ 8 + 8 * suc n = omega arith in
          rw (← size) (moved-after_word m.memory memory' (8 + 8 * n) t0 t2 q b below (there q)),
    )

-- A block below a word.
moved-before_word :
    (m m' : Memory) (n t0 t2 q : ℕ)
    → IsBytes m
    → t2 < t0
    → m' q ≡ moved (reg_s m (t0 + n) (reg_l m (t2 + n))) t0 t2 n q
    → m' q ≡ moved m t0 t2 (n + 8) q
moved-before_word m m' n t0 t2 q b above h =
    ground
      (arith, word-moved m (t0 + n) (t2 + n) q b, word-moved m (t0 + n) (t2 + n) (t2 + (q - t0)) b)

-- Words copied from the end.
pub copy_to_upper-moved :
    (n rounds t0 t1 t2 t3 : ℕ) (m : Machine)
    → IsBytes m.memory
    → t2 < t0
    → t1 ≡ t0 + (8 * n + 8)
    → t3 ≡ t2 + (8 * n + 8)
    → t0 + (8 * n + 8) < 2 ^ 63
    → n < rounds
    → (memory' : Memory) × (copy_to_upper rounds t0 t1 t3 m ≡ ok tt (record m { memory = memory' }))
      × ((q : ℕ) → memory' q ≡ moved m.memory t0 t2 (8 * n + 8) q)
unfolding copy_to_upper load save
copy_to_upper-moved n zero t0 t1 t2 t3 m b above end from fits h = absurd (omega arith)
copy_to_upper-moved zero (suc rounds) t0 t1 t2 t3 m b above end from fits h =
    let next : sub t1 sizeof_pointer ≡ t0 = omega arith in
    let next3 : sub t3 sizeof_pointer ≡ t2 = omega arith in
    let last : blt t0 t0 ≡ false = ground (arith, blt-ltb t0 t0) in
    (
      reg_s m.memory t0 (reg_l m.memory t2),
      rw (next, next3, last) refl,
      λ q. word-moved m.memory t0 t2 q b,
    )
copy_to_upper-moved (suc n) (suc rounds) t0 t1 t2 t3 m b above end from fits h =
    let size = 8 * n + 8 in
    let next : sub t1 sizeof_pointer ≡ t0 + size = omega arith in
    let next3 : sub t3 sizeof_pointer ≡ t2 + size = omega arith in
    let more : blt t0 (t0 + size) ≡ true = ground (arith, blt-ltb t0 (t0 + size)) in
    let stored = reg_s m.memory (t0 + size) (reg_l m.memory (t2 + size)) in
    let step : copy_to_upper (suc rounds) t0 t1 t3 m
        ≡ copy_to_upper rounds t0 (t0 + size) (t2 + size) (record m { memory = stored }) =
      rw (next, next3, more) refl in
    let (memory', ran, there) =
      copy_to_upper-moved n rounds t0 (t0 + size) t2 (t2 + size) (record m { memory = stored })
        (store_bytes-IsBytes 8 m.memory (t0 + size) (reg_l m.memory (t2 + size)) b) above refl refl
        (omega arith) (omega arith) in
    (
      memory',
      step ∙ ran,
      λ q.
          let whole : size + 8 ≡ 8 * suc n + 8 = omega arith in
          rw (← whole) (moved-before_word m.memory memory' size t0 t2 q b above (there q)),
    )

zero_word : (m : Memory) (p q : ℕ) → reg_s m p 0 q ≡ (if within p 8 q then 0 else m q)
zero_word m p q = store_bytes_zero 8 m p q

-- Words set to zero.
pub bss_zero-memset :
    (n rounds t1 t2 : ℕ) (m : Machine)
    → t2 ≡ t1 + (8 + 8 * n)
    → t1 + (8 + 8 * n) < 2 ^ 63
    → n < rounds
    → (memory' : Memory) × (bss_zero rounds t1 t2 m ≡ ok tt (record m { memory = memory' }))
      × ((q : ℕ) → memory' q ≡ memset m.memory t1 0 (8 + 8 * n) q)
unfolding bss_zero save
bss_zero-memset n zero t1 t2 m end fits h = absurd (omega arith)
bss_zero-memset zero (suc rounds) t1 t2 m end fits h =
    let next : add t1 sizeof_pointer ≡ t1 + 8 = omega arith in
    let last : blt (t1 + 8) t2 ≡ false = ground (arith, blt-ltb (t1 + 8) t2) in
    (
      reg_s m.memory t1 0,
      rw (next, last) refl,
      λ q. ground (arith, zero_word m.memory t1 q, memset_lem 8 m.memory t1 0 q),
    )
bss_zero-memset (suc n) (suc rounds) t1 t2 m end fits h =
    let next : add t1 sizeof_pointer ≡ t1 + 8 = omega arith in
    let more : blt (t1 + 8) t2 ≡ true = ground (arith, blt-ltb (t1 + 8) t2) in
    let stored = reg_s m.memory t1 0 in
    let step : bss_zero (suc rounds) t1 t2 m
        ≡ bss_zero rounds (t1 + 8) t2 (record m { memory = stored }) =
      rw (next, more) refl in
    let (memory', ran, there) =
      bss_zero-memset n rounds (t1 + 8) t2 (record m { memory = stored }) (omega arith)
        (omega arith) (omega arith) in
    (
      memory',
      step ∙ ran,
      λ q. ground (
        arith,
        there q,
        zero_word m.memory t1 q,
        memset_lem (8 + 8 * n) stored (t1 + 8) 0 q,
        memset_lem (8 + 8 * suc n) m.memory t1 0 q,
      ),
    )

module _ (n rounds size t0 t1 t2 : ℕ) (m : Machine) (b : IsBytes m.memory)
    (whole : size ≡ 8 + 8 * n) (end : t1 ≡ t0 + size) (enough : n < rounds) where
  pub copy_to_lower-block :
      t0 < t2
      → t2 + size < 2 ^ 63
      → (memory' : Memory) × (copy_to_lower rounds t0 t1 t2 m
          ≡ ok tt (record m { memory = memory' }))
        × ((q : ℕ) → memory' q ≡ moved m.memory t0 t2 size q)
  copy_to_lower-block below fits =
      rw whole (copy_to_lower-moved n rounds t0 t1 t2 m b below (omega arith) (omega arith) enough)

  pub copy_to_upper-block :
      t2 < t0
      → t0 + size < 2 ^ 63
      → (memory' : Memory) × (copy_to_upper rounds t0 t1 (t2 + size) m
          ≡ ok tt (record m { memory = memory' }))
        × ((q : ℕ) → memory' q ≡ moved m.memory t0 t2 size q)
  copy_to_upper-block above fits =
      let whole' : size ≡ 8 * n + 8 = omega arith in
      rw whole' (
        copy_to_upper-moved n rounds t0 t1 t2 (t2 + (8 * n + 8)) m b above (omega arith) refl
          (omega arith) enough)
