-- ===== src/Entry/Relocate.antt =====
-- The relocation of firmware/head.S as a whole.
use zstage.Base.{
  ℕ, ◌+◌, ◌*◌, ◌%◌, ◌^◌, ◌<◌, ◌≡◌, ◌⊎◌, inl, inr, refl, ap, ◌∙◌, arith, ◌==◌, Bool, Bool-cases,
  true, false,
}
use zstage.Memory.{Memory, IsBytes}
use zstage.CString.Copy.{moved, within}
use zstage.Machine.{Machine, Cmd, pure, and_then, ok, stop, hung}
use zstage.Entry.{
  Image, add, sub, blt, ble, la, load, reg_l, header_image_run_addr, header_image_size, is_in_use,
  copy_to_lower, copy_to_upper, relocate,
}
use zstage.Entry.Loops.{blt-ltb, copy_to_lower-block, copy_to_upper-block}
use zstage.Entry.InUse.{
  IsLaidOut, in_use, is_in_use-IsApart, in_use-apart-lower, in_use-apart-upper,
}

if_used : (b c : Bool) → (b ≡ true → c ≡ false) → (b ≡ false) ⊎ (c ≡ false)
if_used true c h = inr (h refl)
if_used false c h = inl refl

-- How `relocate` ends: it hangs, and then the two places overlap, or it goes on at `_relocate_done`
-- of the copy, with the image at `run` and nothing written of what is in use.
abbrev pub Relocated : (img : Image) (rounds base run size : ℕ) → Machine → Type 0
Relocated img rounds base run size m =
    ((relocate img rounds base m ≡ stop hung m) × (run < base + size) × (base < run + size))
    ⊎ ((memory' : Memory) × (relocate img rounds base m
          ≡ ok (run + img.relocate_done) (record m { memory = memory' }))
        × ((q : ℕ) → memory' q ≡ moved m.memory run base size q)
        × ((run ≡ base) ⊎ ((q : ℕ) → (in_use img base q ≡ false) ⊎ (within run size q ≡ false))))

lt-cases : (a b : ℕ) → (a < b) ⊎ ((b < a) ⊎ (a ≡ b))
lt-cases a b = ground arith

module _ (img : Image) (n rounds base run size : ℕ) (m : Machine) (b : IsBytes m.memory)
    (run_word : reg_l m.memory (la base header_image_run_addr) ≡ run)
    (size_word : reg_l m.memory (la base header_image_size) ≡ size)
    (base_word : reg_l m.memory (la base img.load_start) ≡ base) (laid : IsLaidOut img size)
    (whole : size ≡ 8 + 8 * n) (fits : (base + size < 2 ^ 63) × (run + size < 2 ^ 63))
    (aligned : run % 8 ≡ base % 8) (enough : n < rounds) where
  target : add (sub (la base img.relocate_done) base) run ≡ run + img.relocate_done
  target = omega (arith, laid.code)

  source_end : add base size ≡ base + size
  source_end = omega arith

  run_end : add size run ≡ run + size
  run_end = omega arith

  -- A copy that ran, with what the checks leave.
  copied :
      (copy : Cmd (Unit {0}))
      → relocate img rounds base m ≡ and_then (copy m) (λ _. pure (run + img.relocate_done))
      → (memory' : Memory) × (copy m ≡ ok tt (record m { memory = memory' }))
        × ((q : ℕ) → memory' q ≡ moved m.memory run base size q)
      → ((q : ℕ) → in_use img base q ≡ true → within run size q ≡ false)
      → Relocated img rounds base run size m
  copied copy step (memory', ran, there) kept = inr (
    memory',
    step ∙ ap (λ r. and_then r (λ _. pure (run + img.relocate_done))) ran,
    there,
    inr (λ q. if_used (in_use img base q) (within run size q) (kept q)),
  )

  relocate-lower : run < base → Relocated img rounds base run size m
  unfolding relocate load ble
  relocate-lower below =
      let other : (run == base) ≡ false = ground arith in
      let lower : blt base run ≡ false = ground (arith, blt-ltb base run) in
      let copy =
        copy_to_lower-block n rounds size run (run + size) base m b whole refl enough below
          (omega arith) in
      elim (Bool-cases (ble (run + size) base)) [
        | inl clear ↦
            copied (copy_to_lower rounds run (run + size) base)
              (rw (relocate, run_word, size_word, base_word, other, lower, run_end, clear, target)
                refl)
              copy
              (λ q.
                in_use-apart-lower img base size laid run q below
                  (inr (ground (arith, blt-ltb base (run + size)))))
        | inr meets ↦ elim (Bool-cases (is_in_use img base base (run + size) base)) [
          | inl used ↦ inl (
            rw (relocate, run_word, size_word, base_word, other, lower, run_end, meets, used) refl,
            omega arith,
            ground (arith, blt-ltb base (run + size)),
          )
          | inr free ↦
              copied (copy_to_lower rounds run (run + size) base)
                (rw
                  (
                    relocate, run_word, size_word, base_word, other, lower, run_end, meets, free,
                    target,
                  )
                  refl)
                copy
                (λ q. in_use-apart-lower img base size laid run q below (
                  inl (
                    is_in_use-IsApart img base size laid base (run + size) base (omega arith)
                      (omega arith) (omega arith) free)))
        ]
      ]

  relocate-upper : base < run → Relocated img rounds base run size m
  unfolding relocate load ble
  relocate-upper above =
      let other : (run == base) ≡ false = ground arith in
      let upper : blt base run ≡ true = ground (arith, blt-ltb base run) in
      let copy =
        copy_to_upper-block n rounds size run (run + size) base m b whole refl enough above
          (omega arith) in
      elim (Bool-cases (ble (base + size) run)) [
        | inl clear ↦
            copied (copy_to_upper rounds run (run + size) (base + size))
              (rw
                (
                  relocate, run_word, size_word, base_word, other, upper, run_end, source_end,
                  clear, target,
                )
                refl)
              copy
              (λ q.
                in_use-apart-upper img base size laid run q above aligned
                  (inr (ground (arith, blt-ltb run (base + size)))))
        | inr meets ↦ elim (Bool-cases (is_in_use img base run (base + size) run)) [
          | inl used ↦ inl (
            rw
                (
                  relocate, run_word, size_word, base_word, other, upper, run_end, source_end,
                  meets, used,
                )
                refl,
            ground (arith, blt-ltb run (base + size)),
            omega arith,
          )
          | inr free ↦
              copied (copy_to_upper rounds run (run + size) (base + size))
                (rw
                  (
                    relocate, run_word, size_word, base_word, other, upper, run_end, source_end,
                    meets, free, target,
                  )
                  refl)
                copy
                (λ q. in_use-apart-upper img base size laid run q above aligned (
                  inl (
                    is_in_use-IsApart img base size laid run (base + size) run (omega arith)
                      (omega arith) (omega arith) free)))
        ]
      ]

  relocate-in_place : run ≡ base → Relocated img rounds base run size m
  unfolding relocate load
  relocate-in_place here =
      let same : (run == base) ≡ true = ground arith in
      let done : la base img.relocate_done ≡ run + img.relocate_done = omega (arith, laid.code) in
      inr (
        m.memory,
        rw (relocate, run_word, size_word, base_word, same, done) refl,
        λ q. ground arith,
        inl here,
      )

  -- With the image's header and the saved load address in memory, an image of whole words below 2^63
  -- at both places, both alike modulo 8, its labels inside of it, and a round for each word, the
  -- relocation ends. It hangs only where the two places overlap; otherwise the image is at its run
  -- address as it was, no other byte has changed, neither of the two flags of the loaded image nor
  -- the code that relocates lies in the target of a copy, and the boot goes on at the copy of
  -- `_relocate_done`.
  pub relocate-moved : Relocated img rounds base run size m
  relocate-moved = elim (lt-cases run base) [
    | inl below ↦ relocate-lower below
    | inr (inl above) ↦ relocate-upper above
    | inr (inr here) ↦ relocate-in_place here
  ]
