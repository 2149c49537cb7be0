-- ===== src/Boot/Run.antt =====
-- A run of zstage_main in firmware/main.c as a whole.
use zstage.Base.{
  ℕ, ◌≤◌, ◌≡◌, inl, inr, refl, ap, true, false, not, ◌||◌, some, List, [], ◌∷◌, ◌==◌, length, arith,
  Bool-cases, pos, codes,
}
use zstage.Memory.{Memory, IsBytes}
use zstage.CString.Copy.{moved}
use zstage.Machine.{
  cadence_console, uart8250_console, htif_console, semihost_console, Machine, Device, pure, ok,
  and_then,
}
use zstage.Console.{console_get_device}
use zstage.Boot.{
  Platform, ImageHeader, PayloadBlob, fdt_magic, image_magic, image_version, device_name, copy,
  say_copying, platform_early_init, platform_prepare_fdt, platform_final_init, check, copy_blobs,
  copy_next_stage, say_console, boot, zstage_main, zstage_console_init,
}
use zstage.Boot.Lines.{
  version-IsLine, jumping-IsLine, console-IsLine, fdt-IsLine, next-IsLine, copying-IsLine,
}
use zstage.Boot.Effect.{
  Agree, IsNear, Leads, Speaker, IsSpeaking, pure-Leads, bind-Leads, then-Leads, moved-IsBytes,
}
use zstage.Serial.Probe.{console_devices}
use zstage.Boot.Steps.{devices, say-Leads, copy-Leads}
use zstage.Boot.Plan.{
  IsLiteral, CanCopy, CanCopyAll, with_blobs, with_next_stage, with_fdt, booted, with_blobs-IsBytes,
}

length-device_name : (p : Platform) (d : Device) → length (device_name p d) ≤ 12
unfolding console_devices
length-device_name p cadence_console = omega arith
length-device_name p uart8250_console = omega arith
length-device_name p htif_console = omega arith
length-device_name p semihost_console = omega arith

module _ (p : Platform) (d : Speaker) (speaking : IsSpeaking (devices p d) d) where
  say_copying-Leads :
      (what : List ℕ) (size dest src : ℕ) (memory : Memory)
      → IsLiteral p what
      → length what ≤ 12
      → CanCopy p.tbuf dest src size
      → Leads p.tbuf d (say_copying p what size dest src) tt memory memory
  unfolding say_copying
  say_copying-Leads what size dest src memory lit short can = say-Leads p d _ _ memory speaking (
      copying-IsLine p.string_at (p.literal what) size dest src lit.1 (rw lit.0 short)
        can.count_word can.dest_word can.src_word)

  copy_blobs-Leads :
      (blobs : List PayloadBlob) (memory : Memory)
      → IsLiteral p (codes "blob")
      → IsBytes memory
      → CanCopyAll p.tbuf blobs
      → Leads p.tbuf d (copy_blobs p blobs) tt memory (with_blobs memory blobs)
  unfolding copy_blobs with_blobs
  copy_blobs-Leads [] memory lit b can = pure-Leads p.tbuf d tt memory
  copy_blobs-Leads (blob ∷ blobs) memory lit b can = elim (Bool-cases (blob.size == 0)) [
    | inl last ↦ rw last (pure-Leads p.tbuf d tt memory)
    | inr more ↦ rw more (
        let after = moved memory blob.dst_addr blob.src_addr blob.size in
        then-Leads p.tbuf d _ _ tt memory memory (with_blobs after blobs)
          (say_copying-Leads (codes "blob") blob.size blob.dst_addr blob.src_addr memory lit
            (omega arith) can.0)
          (then-Leads p.tbuf d _ (copy_blobs p blobs) tt memory after (with_blobs after blobs)
            (copy-Leads p d blob.dst_addr blob.src_addr blob.size memory b can.0.apart can.0.order)
            (copy_blobs-Leads blobs after lit
              (moved-IsBytes memory blob.dst_addr blob.src_addr blob.size b) can.1)))
  ]

  copy_next_stage-Leads :
      (hdr : ImageHeader) (memory : Memory)
      → IsLiteral p (codes "next stage")
      → IsBytes memory
      → CanCopy p.tbuf hdr.next_run_addr hdr.next_load_addr hdr.next_size
      → Leads p.tbuf d (copy_next_stage p hdr) tt memory (with_next_stage hdr memory)
  unfolding copy_next_stage
  copy_next_stage-Leads hdr memory lit b can =
      elim (Bool-cases (hdr.next_load_addr == hdr.next_run_addr)) [
        | inl there ↦ rw there (pure-Leads p.tbuf d tt memory)
        | inr apart ↦ rw apart (
            let after = moved memory hdr.next_run_addr hdr.next_load_addr hdr.next_size in
            then-Leads p.tbuf d _ (copy hdr.next_run_addr hdr.next_load_addr hdr.next_size) tt
              memory memory after
              (say_copying-Leads (codes "next stage") hdr.next_size hdr.next_run_addr
                hdr.next_load_addr memory lit (omega arith) can)
              (copy-Leads p d hdr.next_run_addr hdr.next_load_addr hdr.next_size memory b can.apart
                can.order))
      ]

  get-Leads : (memory : Memory) → Leads p.tbuf d console_get_device (some d.device) memory memory
  unfolding console_get_device
  get-Leads memory = record { run = λ m near. (m, ap (λ c. ok c m) near.console, near) }

  say_console-Leads :
      (memory : Memory)
      → IsLiteral p (device_name p d.device)
      → Leads p.tbuf d (say_console p) tt memory memory
  unfolding say_console
  say_console-Leads memory lit =
      bind-Leads p.tbuf d console_get_device _ (some d.device) tt memory memory memory
        (get-Leads memory)
        (say-Leads p d _ _ memory speaking (
          console-IsLine p.string_at (p.literal (device_name p d.device)) lit.1
            (rw lit.0 (length-device_name p d.device))))

  prepare_fdt-Leads :
      (boot_arg1 : ℕ) (hdr : ImageHeader) (memory : Memory)
      → ((m : Memory) → Agree p.tbuf m memory → p.libfdt m boot_arg1 ≡ p.libfdt memory boot_arg1)
      → (p.libfdt memory boot_arg1).magic ≡ fdt_magic
      → IsBytes memory
      → CanCopy p.tbuf hdr.next_fdt_addr boot_arg1 (p.libfdt memory boot_arg1).totalsize
      → Leads p.tbuf d
          (platform_prepare_fdt p boot_arg1 hdr)
          (pos 0)
          memory
          (moved memory hdr.next_fdt_addr boot_arg1 (p.libfdt memory boot_arg1).totalsize)
  unfolding platform_prepare_fdt copy
  prepare_fdt-Leads boot_arg1 hdr memory settled magic b can = record {
    run = λ m near.
        let same : p.libfdt m.memory boot_arg1 ≡ p.libfdt memory boot_arg1 =
          settled m.memory near.agrees in
        let found : (p.libfdt memory boot_arg1).magic == fdt_magic ≡ true = rw magic refl in
        let size = (p.libfdt memory boot_arg1).totalsize in
        let (m', ran, near') =
          (copy-Leads p d hdr.next_fdt_addr boot_arg1 size memory b can.apart can.order).run m
            near in
        (m', rw same (rw found (ap (λ r. and_then r (λ _. pure (pos 0))) ran)), near');
  }

  early-Leads :
      (boot_arg1 : ℕ) (memory : Memory)
      → Leads p.tbuf d (platform_early_init p boot_arg1) (pos 0) memory memory
  unfolding platform_early_init
  early-Leads boot_arg1 memory = pure-Leads p.tbuf d (pos 0) memory

  final-Leads :
      (boot_arg1 : ℕ) (memory : Memory)
      → Leads p.tbuf d (platform_final_init p boot_arg1) (pos 0) memory memory
  unfolding platform_final_init
  final-Leads boot_arg1 memory = pure-Leads p.tbuf d (pos 0) memory

  boot-Leads :
      (boot_arg1 : ℕ) (hdr : ImageHeader) (blobs : List PayloadBlob) (m : Memory)
      → IsBytes m
      → IsLiteral p (codes "blob")
      → IsLiteral p (codes "next stage")
      → IsLiteral p (device_name p d.device)
      → CanCopyAll p.tbuf blobs
      → ((m' : Memory)
          → Agree p.tbuf m' (with_blobs m blobs)
          → p.libfdt m' boot_arg1 ≡ p.libfdt (with_blobs m blobs) boot_arg1)
      → (p.libfdt (with_blobs m blobs) boot_arg1).magic ≡ fdt_magic
      → CanCopy p.tbuf hdr.next_fdt_addr boot_arg1
          (p.libfdt (with_blobs m blobs) boot_arg1).totalsize
      → CanCopy p.tbuf hdr.next_run_addr hdr.next_load_addr hdr.next_size
      → Leads p.tbuf d (boot p boot_arg1 hdr blobs) tt m (booted p boot_arg1 hdr blobs m)
  unfolding boot check
  boot-Leads boot_arg1 hdr blobs m b blob_lit next_lit name_lit can settled magic can_fdt can_next =
      let m1 = with_blobs m blobs in
      let b1 = with_blobs-IsBytes m blobs b in
      let m2 = with_fdt p boot_arg1 hdr m1 in
      let b2 = moved-IsBytes m1 hdr.next_fdt_addr boot_arg1 (p.libfdt m1 boot_arg1).totalsize b1 in
      let m3 = with_next_stage hdr m2 in
      then-Leads p.tbuf d _ _ tt m m m3 (say-Leads p d _ _ m speaking (version-IsLine p.string_at))
        (bind-Leads p.tbuf d (platform_early_init p boot_arg1) _ (pos 0) tt m m m3
          (early-Leads boot_arg1 m)
          (then-Leads p.tbuf d _ _ tt m m m3 (pure-Leads p.tbuf d tt m) (
            then-Leads p.tbuf d _ _ tt m m m3 (say_console-Leads m name_lit) (
              then-Leads p.tbuf d _ _ tt m m1 m3 (copy_blobs-Leads blobs m blob_lit b can) (
                then-Leads p.tbuf d _ _ tt m1 m1 m3
                  (say-Leads p d _ _ m1 speaking
                    (fdt-IsLine p.string_at hdr.next_fdt_addr can_fdt.dest_word))
                  (bind-Leads p.tbuf d (platform_prepare_fdt p boot_arg1 hdr) _ (pos 0) tt m1 m2 m3
                    (prepare_fdt-Leads boot_arg1 hdr m1 settled magic b1 can_fdt)
                    (then-Leads p.tbuf d _ _ tt m2 m2 m3 (pure-Leads p.tbuf d tt m2) (
                      then-Leads p.tbuf d _ _ tt m2 m3 m3
                        (copy_next_stage-Leads hdr m2 next_lit b2 can_next)
                        (then-Leads p.tbuf d _ _ tt m3 m3 m3
                          (say-Leads p d _ _ m3 speaking (
                            next-IsLine p.string_at hdr.next_run_addr hdr.next_size
                              can_next.dest_word can_next.count_word))
                          (bind-Leads p.tbuf d (platform_final_init p boot_arg1) _ (pos 0) tt m3 m3
                            m3 (final-Leads boot_arg1 m3)
                            (then-Leads p.tbuf d _ _ tt m3 m3 m3 (pure-Leads p.tbuf d tt m3) (
                              say-Leads p d _ _ m3 speaking (jumping-IsLine p.string_at)))))))))))))

  -- The same with any console that always returns, once the init of the console has returned.
  pub zstage_main-booted :
      (boot_arg1 : ℕ) (hdr : ImageHeader) (blobs : List PayloadBlob) (m m1 : Machine)
      → hdr.magic ≡ image_magic
      → hdr.version ≡ image_version
      → zstage_console_init p boot_arg1 m ≡ ok (pos 0) m1
      → m1.memory ≡ m.memory
      → m1.console_dev ≡ some d.device
      → d.live m1.uart8250
      → IsBytes m.memory
      → IsLiteral p (codes "blob")
      → IsLiteral p (codes "next stage")
      → IsLiteral p (device_name p d.device)
      → CanCopyAll p.tbuf blobs
      → ((m' : Memory)
          → Agree p.tbuf m' (with_blobs m.memory blobs)
          → p.libfdt m' boot_arg1 ≡ p.libfdt (with_blobs m.memory blobs) boot_arg1)
      → (p.libfdt (with_blobs m.memory blobs) boot_arg1).magic ≡ fdt_magic
      → CanCopy p.tbuf hdr.next_fdt_addr boot_arg1
          (p.libfdt (with_blobs m.memory blobs) boot_arg1).totalsize
      → CanCopy p.tbuf hdr.next_run_addr hdr.next_load_addr hdr.next_size
      → (m' : Machine) × (zstage_main p boot_arg1 hdr blobs m ≡ ok tt m')
        × Agree p.tbuf m'.memory (booted p boot_arg1 hdr blobs m.memory)
        × (m'.console_dev ≡ some d.device)
  unfolding zstage_main
  zstage_main-booted boot_arg1 hdr blobs m m1 magic version init kept console heard b blob_lit
        next_lit name_lit can settled fdt can_fdt can_next =
      let accepted : (not (hdr.magic == image_magic) || not (hdr.version == image_version))
          ≡ false =
        ground arith in
      let near : IsNear p.tbuf d m.memory m1 = record {
        agrees = rw kept (λ q h. refl);
        console = console;
        heard = heard;
      } in
      let (m', ran, near') =
        (boot-Leads boot_arg1 hdr blobs m.memory b blob_lit next_lit name_lit can settled fdt
            can_fdt can_next).run
          m1 near in
      (m', rw accepted (rw init ran), near'.agrees, near'.console)
