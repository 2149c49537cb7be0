-- ===== src/Entry/InUse.antt =====
-- The checks of firmware/head.S that keep a copy away from what is in use of the loaded image.
use zstage.Base.{
  ℕ, ◌+◌, ◌%◌, ◌^◌, ◌<◌, ◌≤◌, ◌≡◌, ◌⊎◌, inl, inr, arith, ltb, leb, ◌&&◌, ◌||◌, Bool, true, false,
}
use zstage.CString.Copy.{within}
use zstage.Entry.{Image, blt, bge, brange, la, is_in_use}
use zstage.Entry.Loops.{blt-ltb}

-- Labels inside an image of `size` bytes, and the two flags as aligned words.
pub record IsLaidOut (img : Image) (size : ℕ) : Type 0 where
  pub lottery : (img.relocate_lottery % 8 ≡ 0) × (img.relocate_lottery + 8 ≤ size)
  pub status : (img.boot_status % 8 ≡ 0) × (img.boot_status + 8 ≤ size)
  pub code : (img.relocate < img.relocate_done) × (img.relocate_done < size)

brange-between :
    (start end check : ℕ)
    → start < 2 ^ 63
    → end < 2 ^ 63
    → check < 2 ^ 63
    → brange start end check ≡ (leb start check && ltb check end)
unfolding brange blt bge
brange-between start end check hs he hc =
    ground (arith, blt-ltb check start hc hs, blt-ltb check end hc he)

brange-apart :
    (base size first last label : ℕ)
    → base + size < 2 ^ 63
    → first < 2 ^ 63
    → last < 2 ^ 63
    → label < size
    → brange first last (la base label) ≡ false
    → (base + label < first) ⊎ (last ≤ base + label)
brange-apart base size first last label fits hf hl inside miss =
    let at : la base label ≡ base + label = omega arith in
    ground (arith, at, brange-between first last (la base label) hf hl)

or-false : (a b : Bool) → (a || b) ≡ false → (a ≡ false) × (b ≡ false)
or-false a b h = ground arith

-- The bytes of the loaded image that others still use: the flags, and the code that relocates.
abbrev pub in_use : Image → (base q : ℕ) → Bool
in_use img base q =
    within (base + img.relocate_lottery) 8 q
    || (within (base + img.boot_status) 8 q
        || (leb (base + img.relocate) q && leb q (base + img.relocate_done)))

module _ (img : Image) (base size : ℕ) (laid : IsLaidOut img size) where
  -- What the checks leave: neither flag and no end of the code that relocates lies in between.
  pub record IsApart (first last : ℕ) : Type 0 where
    lottery : (base + img.relocate_lottery < first) ⊎ (last ≤ base + img.relocate_lottery)
    status : (base + img.boot_status < first) ⊎ (last ≤ base + img.boot_status)
    start : (base + img.relocate < first) ⊎ (last ≤ base + img.relocate)
    done : (base + img.relocate_done < first) ⊎ (last ≤ base + img.relocate_done)

  pub is_in_use-IsApart :
      (first last from : ℕ)
      → base + size < 2 ^ 63
      → first < 2 ^ 63
      → last < 2 ^ 63
      → is_in_use img base first last from ≡ false
      → IsApart first last
  unfolding is_in_use
  is_in_use-IsApart first last from fits hf hl free =
      let (no_lottery, free1) = or-false _ _ free in
      let (no_status, free2) = or-false _ _ free1 in
      let (no_start, free3) = or-false _ _ free2 in
      let (no_done, free4) = or-false _ _ free3 in
      record {
        lottery =
            brange-apart base size first last img.relocate_lottery fits hf hl
              (omega (arith, laid.lottery)) no_lottery;
        status =
            brange-apart base size first last img.boot_status fits hf hl
              (omega (arith, laid.status)) no_status;
        start =
            brange-apart base size first last img.relocate fits hf hl (omega (arith, laid.code))
              no_start;
        done =
            brange-apart base size first last img.relocate_done fits hf hl
              (omega (arith, laid.code)) no_done;
      }

  pub in_use-apart-lower :
      (run q : ℕ)
      → run < base
      → IsApart base (run + size) ⊎ (run + size ≤ base)
      → in_use img base q ≡ true
      → within run size q ≡ false
  in_use-apart-lower run q below (inl apart) used = ground (
    arith, apart.lottery, apart.status, apart.start, apart.done, laid.lottery, laid.status,
    laid.code,
  )
  in_use-apart-lower run q below (inr clear) used =
      ground (arith, laid.lottery, laid.status, laid.code)

  pub in_use-apart-upper :
      (run q : ℕ)
      → base < run
      → run % 8 ≡ base % 8
      → IsApart run (base + size) ⊎ (base + size ≤ run)
      → in_use img base q ≡ true
      → within run size q ≡ false
  in_use-apart-upper run q above aligned (inl apart) used = ground (
    arith, apart.lottery, apart.status, apart.start, apart.done, laid.lottery, laid.status,
    laid.code,
  )
  in_use-apart-upper run q above aligned (inr clear) used =
      ground (arith, laid.lottery, laid.status, laid.code)
