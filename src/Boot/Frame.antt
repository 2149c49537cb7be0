-- ===== src/Boot/Frame.antt =====
-- What zstage_main of firmware/main.c cannot change, whatever it is given and however it ends.
use zstage.Base.{
  ℕ, zero, suc, ◌+◌, ◌<◌, ◌≤◌, ◌≡◌, ◌⊎◌, inl, inr, refl, List, [], ◌∷◌, ◌==◌, not, ◌||◌, ℤ, pos,
  codes, is_zero, arith, true,
}
use zstage.Memory.{Memory, store}
use zstage.CString.{memcpy}
use zstage.Machine.{Machine, get, hung}
use zstage.Machine.Keeps.{machine_of}
use zstage.Machine.Spares.{
  Spares, pure-Spares, halt-Spares, get-Spares, bind-Spares, then-Spares, if-Spares,
}
use zstage.Console.{console_get_device}
use zstage.Fdt.{enosys}
use zstage.Serial.Probe.Output.{printf-frame}
use zstage.Serial.Probe.Frame.{fdt_serial_init-Spares}
use zstage.Serial.Semihosting.{semihosting_serial_init}
use zstage.Serial.Semihosting.Frame.{semihosting_serial_init-Spares}
use zstage.Format.Print.{printf}
use zstage.Boot.{
  Platform, ImageHeader, PayloadBlob, fdt_magic, image_magic, image_version, zstage_hang, copy, say,
  platform_early_init, platform_stdio_init, platform_prepare_fdt, platform_final_init,
  zstage_console_init, hang_with, check, say_copying, copy_blobs, copy_next_stage, say_console,
  boot, zstage_main,
}

-- The address `q` lies outside of the `n` bytes from `p` on.
abbrev pub IsOutside : (p n q : ℕ) → Type 0
IsOutside p n q = (q < p) ⊎ (p + n ≤ q)

-- Outside of where the blobs go, up to the one of size 0.
abbrev pub IsOutsideBlobs : List PayloadBlob → (q : ℕ) → Type 0
IsOutsideBlobs [] q = Unit {0}
IsOutsideBlobs (blob ∷ blobs) q =
    (blob.size ≡ 0) ⊎ (IsOutside blob.dst_addr blob.size q × IsOutsideBlobs blobs q)

memcpy_outside :
    (count : ℕ) (m : Memory) (dest src q : ℕ)
    → IsOutside dest count q
    → memcpy m dest src count q ≡ m q
unfolding memcpy store
memcpy_outside zero m dest src q h = refl
memcpy_outside (suc count) m dest src q h =
    ground (arith, memcpy_outside count (store m dest (m src)) (dest + 1) (src + 1) q)

pub copy-Spares : (dest src count q : ℕ) → IsOutside dest count q → Spares q (copy dest src count)
unfolding copy
copy-Spares dest src count q h = record { spares = λ m. memcpy_outside count m.memory dest src q h }

module _ (p : Platform) (q : ℕ) (apart : IsOutside p.tbuf 128 q) where
  pub say-Spares : (format args : List ℕ) → Spares q (say p format args)
  unfolding say
  say-Spares format args =
      bind-Spares q (printf p.string_at _ p.tbuf format args) _
        (record {
          spares = λ m.
              printf-frame p.outside p.tohost p.fromhost p.string_at p.tbuf format args m q apart;
        })
        (λ pc. pure-Spares q tt)

  pub hang-Spares : {A : Type 0} → Spares q (zstage_hang {A = A})
  unfolding zstage_hang
  hang-Spares = halt-Spares q hung

  pub check-Spares : (rc : ℤ) (format : List ℕ) → Spares q (check p rc format)
  unfolding check hang_with
  check-Spares rc format =
      if-Spares q (is_zero rc) _ _ (pure-Spares q tt) (then-Spares q (say-Spares _ _) hang-Spares)

  pub say_copying-Spares :
      (what : List ℕ) (size dest src : ℕ) → Spares q (say_copying p what size dest src)
  unfolding say_copying
  say_copying-Spares what size dest src = say-Spares _ _

  pub copy_blobs-Spares :
      (blobs : List PayloadBlob) → IsOutsideBlobs blobs q → Spares q (copy_blobs p blobs)
  unfolding copy_blobs
  copy_blobs-Spares [] h = pure-Spares q tt
  copy_blobs-Spares (blob ∷ blobs) (inl empty) =
      let last : (blob.size == 0) ≡ true = ground arith in rw last (pure-Spares q tt)
  copy_blobs-Spares (blob ∷ blobs) (inr (outside, rest)) =
      if-Spares q (blob.size == 0) _ _ (pure-Spares q tt) (
        then-Spares q (say_copying-Spares _ _ _ _) (
          then-Spares q (copy-Spares blob.dst_addr blob.src_addr blob.size q outside)
            (copy_blobs-Spares blobs rest)))

  pub console_init-Spares : (boot_arg1 : ℕ) → Spares q (zstage_console_init p boot_arg1)
  unfolding zstage_console_init platform_stdio_init
  console_init-Spares boot_arg1 =
      bind-Spares q (semihosting_serial_init p.outside) _
        (semihosting_serial_init-Spares q p.outside)
        (λ rc. bind-Spares q get _ (get-Spares q) (λ m.
          if-Spares q (is_zero rc) _ _ (pure-Spares q (pos 0)) (
            fdt_serial_init-Spares q p.outside p.depth p.stack_addr p.stack_size
              (p.libfdt m.memory boot_arg1))))

  pub prepare_fdt-Spares :
      (boot_arg1 : ℕ) (hdr : ImageHeader)
      → ((memory : Memory) → IsOutside hdr.next_fdt_addr (p.libfdt memory boot_arg1).totalsize q)
      → Spares q (platform_prepare_fdt p boot_arg1 hdr)
  unfolding platform_prepare_fdt
  prepare_fdt-Spares boot_arg1 hdr outside = bind-Spares q get _ (get-Spares q) (λ m.
      if-Spares q (not ((p.libfdt m.memory boot_arg1).magic == fdt_magic)) _ _
        (pure-Spares q enosys)
        (then-Spares q
          (copy-Spares hdr.next_fdt_addr boot_arg1 (p.libfdt m.memory boot_arg1).totalsize q
            (outside m.memory))
          (pure-Spares q (pos 0))))

  pub next_stage-Spares :
      (hdr : ImageHeader)
      → (hdr.next_load_addr ≡ hdr.next_run_addr) ⊎ IsOutside hdr.next_run_addr hdr.next_size q
      → Spares q (copy_next_stage p hdr)
  unfolding copy_next_stage
  next_stage-Spares hdr (inl here) =
      let same : (hdr.next_load_addr == hdr.next_run_addr) ≡ true = ground arith in
      rw same (pure-Spares q tt)
  next_stage-Spares hdr (inr outside) =
      if-Spares q (hdr.next_load_addr == hdr.next_run_addr) _ _ (pure-Spares q tt) (
        then-Spares q (say_copying-Spares _ _ _ _)
          (copy-Spares hdr.next_run_addr hdr.next_load_addr hdr.next_size q outside))

  pub say_console-Spares : Spares q (say_console p)
  unfolding say_console console_get_device
  say_console-Spares = bind-Spares q get _ (get-Spares q) (λ m. say-Spares _ _)

  module _ (boot_arg1 : ℕ) (hdr : ImageHeader) (blobs : List PayloadBlob)
      (no_blob : IsOutsideBlobs blobs q)
      (no_fdt : (memory : Memory)
        → IsOutside hdr.next_fdt_addr (p.libfdt memory boot_arg1).totalsize q)
      (no_next : (hdr.next_load_addr ≡ hdr.next_run_addr)
        ⊎ IsOutside hdr.next_run_addr hdr.next_size q) where
    boot-Spares : Spares q (boot p boot_arg1 hdr blobs)
    unfolding boot platform_early_init platform_final_init
    boot-Spares = then-Spares q (say-Spares _ _) (
        then-Spares q
          (check-Spares (pos 0) (codes "zstage: platform early init failed (error %d)\n"))
          (then-Spares q say_console-Spares (
            then-Spares q (copy_blobs-Spares blobs no_blob) (
              then-Spares q (say-Spares _ _) (
                bind-Spares q (platform_prepare_fdt p boot_arg1 hdr) _
                  (prepare_fdt-Spares boot_arg1 hdr no_fdt)
                  (λ rc. then-Spares q (check-Spares rc _) (
                    then-Spares q (next_stage-Spares hdr no_next) (
                      then-Spares q (say-Spares _ _) (
                        then-Spares q
                          (check-Spares (pos 0)
                            (codes "zstage: platform final init failed (error %d)\n"))
                          (say-Spares _ _))))))))))

    -- Whatever the machine, the console, the header, the blobs and the device tree are, and however
    -- the run ends, `zstage_main` changes no byte but in print's buffer, in the target of a blob in
    -- front of the one of size 0, in the target of the device tree, with the size that libfdt reads
    -- in whatever memory, and in the target of the next stage, where that is not where it was loaded.
    pub zstage_main-frame :
        (m : Machine) → (machine_of m (zstage_main p boot_arg1 hdr blobs m)).memory q ≡ m.memory q
    unfolding zstage_main
    zstage_main-frame m =
        (if-Spares q (not (hdr.magic == image_magic) || not (hdr.version == image_version)) _ _
            hang-Spares
            (bind-Spares q (zstage_console_init p boot_arg1) _ (console_init-Spares boot_arg1)
              (λ rc. if-Spares q (is_zero rc) _ _ boot-Spares hang-Spares))).spares
          m
