-- ===== src/Boot/Checks.antt =====
-- What zstage_main of firmware/main.c has checked where it returns.
use mathlib.Core.Path.{subst}
use zstage.Base.{
  ℕ, ◌≡◌, if◌then◌else◌, [], ◌∷◌, refl, sym, ap, ◌∙◌, inl, inr, Bool-cases, List, ℤ, pos, is_zero,
  not, ◌||◌, ◌==◌, true, false, arith,
}
use zstage.Memory.{Memory}
use zstage.Machine.{Machine, Run, Cmd, ok, stop, hung, ◌>>=◌, ◌>>◌, and_then}
use zstage.Machine.Keeps.{machine_of}
use zstage.Machine.Spares.{Spares, pure-Spares}
use zstage.Boot.Frame.{
  IsOutside, IsOutsideBlobs, say-Spares, check-Spares, say_console-Spares, copy_blobs-Spares,
  console_init-Spares,
}
use zstage.Machine.Laws.{and_then-eq-ok}
use zstage.Fdt.{enosys}
use zstage.Boot.{
  Platform, ImageHeader, PayloadBlob, fdt_magic, image_magic, image_version, zstage_hang, to_word,
  say, platform_early_init, platform_prepare_fdt, zstage_console_init, hang_with, check, boot,
  zstage_main,
}

-- Where the command returns, `P` held of some memory on the way, in which the bytes in `S` were as at
-- the start.
record Requires (S : ℕ → Type 0) (P : Memory → Type 0) {A : Type 0} (c : Cmd A) : Type 0 where
  requires :
      (m m' : Machine) (a : A)
      → c m ≡ ok a m'
      → (memory : Memory) × P memory × ((q : ℕ) → S q → memory q ≡ m.memory q)

skip-Requires :
    {S : ℕ → Type 0} {P : Memory → Type 0} {A B : Type 0} (c : Cmd A) (k : A → Cmd B)
    → ((q : ℕ) → S q → Spares q c)
    → ((a : A) → Requires S P (k a))
    → Requires S P (c >>= k)
skip-Requires c k spares later = record {
  requires = λ m m' b returns.
      let (a, m1, ran, ran2) = and_then-eq-ok (c m) k returns in
      let (memory, holds, same) = (later a).requires m1 m' b ran2 in
      (
        memory,
        holds,
        λ q s.
            same q s
            ∙ ap (λ (x : Run _). (machine_of m x).memory q) (sym ran)
            ∙ (spares q s).spares m,
      );
}

-- The bytes that neither print nor the copies of the blobs write.
abbrev pub IsUntouched : Platform → List PayloadBlob → (q : ℕ) → Type 0
IsUntouched p blobs q = IsOutside p.tbuf 128 q × IsOutsideBlobs blobs q

module _ (p : Platform) (boot_arg1 : ℕ) (hdr : ImageHeader) (blobs : List PayloadBlob) where
  -- A device tree was there, in a memory like that of `m` but for what the loader had written.
  abbrev pub HadTree : Machine → Type 0
  HadTree m =
      (memory : Memory) × ((p.libfdt memory boot_arg1).magic ≡ fdt_magic)
      × ((q : ℕ) → IsUntouched p blobs q → memory q ≡ m.memory q)

  go_on : (rc : ℤ) → Cmd (Unit {0})
  unfolding boot zstage_hang
  go_on rc = if is_zero rc then boot p boot_arg1 hdr blobs else zstage_hang

  early_init-Spares : (q arg : ℕ) → Spares q (platform_early_init p arg)
  unfolding platform_early_init
  early_init-Spares q arg = pure-Spares q (pos 0)

  check-is_zero :
      (rc : ℤ) (format : List ℕ) (m m' : Machine)
      → check p rc format m ≡ ok tt m'
      → is_zero rc ≡ true
  unfolding check hang_with zstage_hang
  check-is_zero rc format m m' ran = elim (Bool-cases (is_zero rc)) [
    | inl zero ↦ zero
    | inr error ↦
        let hangs : check p rc format m
            ≡ and_then (say p format (to_word rc ∷ []) m) (λ _. stop hung) =
          rw error refl in
        let (u, m1, said, stopped) =
          and_then-eq-ok (say p format (to_word rc ∷ []) m) _ (sym hangs ∙ ran) in
        cc
  ]

  -- Where the device tree was prepared, it was one.
  prepare_fdt-magic :
      (rc : ℤ) (m m' : Machine)
      → platform_prepare_fdt p boot_arg1 hdr m ≡ ok rc m'
      → is_zero rc ≡ true
      → (p.libfdt m.memory boot_arg1).magic ≡ fdt_magic
  unfolding platform_prepare_fdt
  prepare_fdt-magic rc m m' ran zero =
      elim (Bool-cases ((p.libfdt m.memory boot_arg1).magic == fdt_magic)) [
        | inl found ↦ ground arith
        | inr other ↦
            let refused : platform_prepare_fdt p boot_arg1 hdr m ≡ ok enosys m = rw other refl in
            let same : ok rc m' ≡ ok enosys m = sym ran ∙ refused in
            let code : rc ≡ enosys = cc in
            let not_zero : false ≡ true = subst (λ (c : ℤ). is_zero c ≡ true) code zero in cc
      ]

  prepare_fdt-Requires :
      (format : List ℕ) (rest : Cmd (Unit {0}))
      → Requires
          (IsUntouched p blobs)
          (λ memory. (p.libfdt memory boot_arg1).magic ≡ fdt_magic)
          (platform_prepare_fdt p boot_arg1 hdr >>= λ rc. check p rc format >> rest)
  prepare_fdt-Requires format rest = record {
    requires = λ m m' a returns.
        let (rc, m1, prepared, ran1) =
          and_then-eq-ok (platform_prepare_fdt p boot_arg1 hdr m) _ returns in
        let (u, m2, checked, ran2) = and_then-eq-ok (check p rc format m1) _ ran1 in
        (
          m.memory,
          prepare_fdt-magic rc m m1 prepared (check-is_zero rc format m1 m2 checked),
          λ q s. refl,
        );
  }

  boot-Requires :
      Requires
        (IsUntouched p blobs)
        (λ memory. (p.libfdt memory boot_arg1).magic ≡ fdt_magic)
        (boot p boot_arg1 hdr blobs)
  unfolding boot
  boot-Requires =
      skip-Requires _ _ (λ q s. say-Spares p q s.0 _ _)
        (λ _.
          skip-Requires (platform_early_init p boot_arg1) _ (λ q s. early_init-Spares q boot_arg1)
            (λ early.
              skip-Requires _ _ (λ q s. check-Spares p q s.0 early _)
                (λ _.
                  skip-Requires _ _ (λ q s. say_console-Spares p q s.0)
                    (λ _.
                      skip-Requires _ _ (λ q s. copy_blobs-Spares p q s.0 blobs s.1)
                        (λ _.
                          skip-Requires _ _ (λ q s. say-Spares p q s.0 _ _)
                            (λ _. prepare_fdt-Requires _ _))))))

  -- Where `zstage_main` returns, the header has the magic and the version of this image, the console
  -- was initialised without an error, and the device tree had its magic, in a memory that differs from
  -- the one at the start at most in print's buffer and in the targets of the blobs in front of the one
  -- of size 0.
  pub zstage_main-checked :
      (m m' : Machine)
      → zstage_main p boot_arg1 hdr blobs m ≡ ok tt m'
      → (hdr.magic ≡ image_magic)
        × (hdr.version ≡ image_version)
        × ((rc : ℤ) × (m1 : Machine) × (zstage_console_init p boot_arg1 m ≡ ok rc m1)
            × (is_zero rc ≡ true))
        × HadTree m
  unfolding zstage_main zstage_hang go_on
  zstage_main-checked m m' ran =
      elim (Bool-cases (not (hdr.magic == image_magic) || not (hdr.version == image_version))) [
        | inl refused ↦
            let hangs : zstage_main p boot_arg1 hdr blobs m ≡ stop hung m = rw refused refl in cc
        | inr accepted ↦
            let initialised : zstage_main p boot_arg1 hdr blobs m
                ≡ and_then (zstage_console_init p boot_arg1 m) go_on =
              rw accepted refl in
            let (rc, m1, init, ran1) =
              and_then-eq-ok (zstage_console_init p boot_arg1 m) _ (sym initialised ∙ ran) in
            elim (Bool-cases (is_zero rc)) [
              | inr error ↦ let hangs : go_on rc m1 ≡ stop hung m1 = rw error refl in cc
              | inl zero ↦
                  let boots : go_on rc m1 ≡ boot p boot_arg1 hdr blobs m1 = rw zero refl in
                  let (memory, magic, same) = boot-Requires.requires m1 m' tt (sym boots ∙ ran1) in
                  (
                    ground arith,
                    ground arith,
                    (rc, m1, init, zero),
                    (
                      memory,
                      magic,
                      λ q s.
                          same q s
                          ∙ ap (λ (x : Run _). (machine_of m x).memory q) (sym init)
                          ∙ (console_init-Spares p q s.0 boot_arg1).spares m,
                    ),
                  )
            ]
      ]
