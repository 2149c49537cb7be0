-- ===== src/Entry/Call/BootHart.antt =====
-- The boot hart of firmware/head.S from the lottery to the call of zstage_main.
use zstage.Base.{
  ℕ, ◌+◌, ◌-◌, ◌*◌, ◌%◌, ◌^◌, ◌<◌, ◌≤◌, ◌≡◌, ◌⊎◌, inl, inr, refl, ap, ◌∙◌, false, arith,
}
use mathlib.Core.Path.{fun_ext}
use zstage.Memory.{Memory, IsBytes}
use zstage.CString.Copy.{moved, within}
use zstage.Machine.{Machine, Cmd, ok, stop, hung, and_then}
use zstage.Entry.{
  Image, reg_l, reg_s, sub, la, save, relocate, header_image_run_addr, header_image_size,
}
use zstage.Entry.Words.{
  load_bytes-shift, load_bytes-store_bytes, load_bytes-away, store_bytes-away, store_bytes-IsBytes,
}
use zstage.Entry.Relocate.{Relocated, relocate-moved}
use zstage.Entry.InUse.{in_use}
use zstage.Entry.Call.{Call, read_header, cleared, prepare, boot_hart}
use zstage.Entry.Call.Prepared.{
  IsPlaced, IsPrepared, IsPrepared-header, finished, read_header-shift, prepare-saved,
  prepare-IsPrepared,
}

-- The machine at the call of zstage_main: the load address saved, the image at its run address, and
-- then the memory and the variables as `prepare` leaves them.
unfoldable pub at_call : Image → (zeros base run size a1 : ℕ) → Machine → Machine
at_call img zeros base run size a1 m =
    let loaded = reg_s m.memory (base + img.load_start) base in
    cleared (record m { memory = finished img zeros base run a1 (moved loaded run base size) })

moved-inside :
    (m : Memory) (run base size o : ℕ) → o < size → moved m run base size (run + o) ≡ m (base + o)
moved-inside m run base size o inside =
    let at : base + (run + o - run) ≡ base + o = omega arith in ground (arith, at)

module _ (img : Image) (n zeros rounds base run size a1 : ℕ) (m : Machine) (b : IsBytes m.memory)
    (run_word : reg_l m.memory (base + header_image_run_addr) ≡ run)
    (size_word : reg_l m.memory (base + header_image_size) ≡ size)
    (placed : IsPlaced img size zeros) (whole : size ≡ 8 + 8 * n)
    (fits : (base + size < 2 ^ 63) × (run + size < 2 ^ 63)) (aligned : run % 8 ≡ base % 8)
    (enough : n < rounds) (word : a1 < 2 ^ 64) where
  started : Machine
  started = record m { memory = reg_s m.memory (base + img.load_start) base }

  started-IsBytes : IsBytes started.memory
  unfolding started
  started-IsBytes = store_bytes-IsBytes 8 m.memory (base + img.load_start) base b

  load_start_at : (p : ℕ) → p + size < 2 ^ 63 → la p img.load_start ≡ p + img.load_start
  load_start_at p h = omega (arith, placed.load_start)

  started-away :
      (p k : ℕ)
      → p + k ≤ base + img.load_start
      → (i : ℕ) → i < k
      → started.memory (p + i) ≡ m.memory (p + i)
  unfolding started
  started-away p k h i lt =
      store_bytes-away 8 m.memory (base + img.load_start) base (p + i) (ground arith)

  header_word : (o : ℕ) → o + 8 ≤ 256 → reg_l started.memory (base + o) ≡ reg_l m.memory (base + o)
  unfolding started
  header_word o h =
      load_bytes-away 8 8 m.memory (base + img.load_start) base (base + o)
        (inl (omega (arith, placed.load_start)))

  run_started : reg_l started.memory (base + header_image_run_addr) ≡ run
  run_started = header_word header_image_run_addr (omega arith) ∙ run_word

  base_started : reg_l started.memory (base + img.load_start) ≡ base
  unfolding started
  base_started = load_bytes-store_bytes 8 m.memory (base + img.load_start) base (omega arith)

  relocated : Relocated img rounds base run size started
  relocated =
      let run_at : la base header_image_run_addr ≡ base + header_image_run_addr =
        omega (arith, placed.load_start) in
      let size_at : la base header_image_size ≡ base + header_image_size =
        omega (arith, placed.load_start) in
      relocate-moved img n rounds base run size started started-IsBytes (rw run_at run_started)
        (rw size_at (header_word header_image_size (omega arith) ∙ size_word))
        (rw (load_start_at base fits.0) base_started) placed.laid whole fits aligned enough

  -- What `moved` says of a word of the image.
  word-moved :
      (memory' : Memory) (o : ℕ)
      → ((q : ℕ) → memory' q ≡ moved started.memory run base size q)
      → o + 8 ≤ size
      → reg_l memory' (run + o) ≡ reg_l started.memory (base + o)
  word-moved memory' o there inside =
      load_bytes-shift 8 memory' started.memory (run + o) (base + o) (λ i lt.
        let to : run + o + i ≡ run + (o + i) = omega arith in
        let from : base + o + i ≡ base + (o + i) = omega arith in
        rw (to, from)
          (there (run + (o + i)) ∙ moved-inside started.memory run base size (o + i) (omega arith)))

  header-moved :
      (memory' : Memory)
      → ((q : ℕ) → memory' q ≡ moved started.memory run base size q)
      → read_header memory' run ≡ read_header m.memory base
  header-moved memory' there = read_header-shift memory' m.memory run base (λ i lt.
      there (run + i)
      ∙ moved-inside started.memory run base size i (omega (arith, placed.load_start))
      ∙ started-away base 256 (omega (arith, placed.load_start)) i lt)

  run_kept :
      (memory' : Memory)
      → ((q : ℕ) → memory' q ≡ moved started.memory run base size q)
      → reg_l memory' (la run header_image_run_addr) ≡ run
  unfolding started
  run_kept memory' there =
      let at : la run header_image_run_addr ≡ run + header_image_run_addr =
        omega (arith, placed.load_start) in
      rw at (
        word-moved memory' header_image_run_addr there (omega (arith, placed.load_start))
        ∙ run_started)

  base_kept :
      (memory' : Memory)
      → ((q : ℕ) → memory' q ≡ moved started.memory run base size q)
      → reg_l memory' (la run img.load_start) ≡ base
  base_kept memory' there =
      rw (load_start_at run fits.1)
        (word-moved memory' img.load_start there (omega (arith, placed.load_start)) ∙ base_started)

  -- The flag of the loaded image, against the target of the copy.
  status_apart :
      (run ≡ base) ⊎ ((q : ℕ) → (in_use img base q ≡ false) ⊎ (within run size q ≡ false))
      → (run ≡ base) ⊎ ((base + img.boot_status + 8 ≤ run) ⊎ (run + size ≤ base + img.boot_status))
  status_apart (inl here) = inl here
  status_apart (inr apart) = inr (
      ground (
        arith,
        apart (base + img.boot_status),
        apart (base + img.boot_status + 7),
        placed.load_start,
      ))

  back : sub (run + img.relocate_done) img.relocate_done ≡ run
  back = omega (arith, placed.laid.code)

  go_on : (pc : ℕ) → Cmd Call
  go_on pc = prepare img rounds (sub pc img.relocate_done) a1

  boot_hart-started :
      boot_hart img rounds base a1 m ≡ and_then (relocate img rounds base started) go_on
  unfolding boot_hart save started go_on
  boot_hart-started = rw (load_start_at base fits.0) refl

  -- From an image in memory whose header names its run address and size, with its parts apart from
  -- each other, whole words below 2^63 at both places, a round for each word and a 64-bit argument,
  -- the boot hart hangs, and then the two places overlap, or it gets to the call of zstage_main:
  -- at the run address, with the boot argument, with the header of the image as it was loaded, with
  -- .bss zero and no console device, and with the flag set that the secondary harts wait for in
  -- the loaded image.
  pub boot_hart-IsPrepared :
      ((m' : Machine) × (boot_hart img rounds base a1 m ≡ stop hung m')
        × (run < base + size)
        × (base < run + size))
      ⊎ ((m' : Machine) × (boot_hart img rounds base a1 m ≡ ok (record { run = run; a0 = a1 }) m')
          × IsPrepared img base run (read_header m.memory base) m')
  unfolding go_on
  boot_hart-IsPrepared = elim relocated [
    | inl (hangs, below, above) ↦
        inl (started, boot_hart-started ∙ ap (λ r. and_then r go_on) hangs, below, above)
    | inr (memory', ran, there, apart) ↦
        let (m', done, prepared) =
          prepare-IsPrepared img size zeros rounds base run a1 (record started { memory = memory' })
            placed fits (omega (arith, placed.bss, placed.bss_words)) word (run_kept memory' there)
            (base_kept memory' there) (status_apart apart) in
        inr (
          m',
          boot_hart-started
              ∙ ap (λ r. and_then r go_on) ran
              ∙ ap (λ at. prepare img rounds at a1 (record started { memory = memory' })) back
              ∙ done,
          IsPrepared-header img base run m' (header-moved memory' there) prepared,
        )
  ]

  -- The same as `boot_hart-IsPrepared`, with the machine written out.
  pub boot_hart-called :
      ((m' : Machine) × (boot_hart img rounds base a1 m ≡ stop hung m')
        × (run < base + size)
        × (base < run + size))
      ⊎ (boot_hart img rounds base a1 m
          ≡ ok (record { run = run; a0 = a1 }) (at_call img zeros base run size a1 m))
  unfolding go_on at_call started
  boot_hart-called = elim relocated [
    | inl (hangs, below, above) ↦
        inl (started, boot_hart-started ∙ ap (λ r. and_then r go_on) hangs, below, above)
    | inr (memory', ran, there, apart) ↦
        let copied : memory' ≡ moved started.memory run base size = fun_ext there in
        let (memory2, done, at_end) =
          prepare-saved img size zeros rounds base run a1 (record started { memory = memory' })
            placed fits (omega (arith, placed.bss, placed.bss_words)) word (run_kept memory' there)
            (base_kept memory' there) (status_apart apart) in
        let final : memory2 ≡ finished img zeros base run a1 (moved started.memory run base size) =
          fun_ext at_end ∙ ap (λ memory. finished img zeros base run a1 memory) copied in
        inr (
          boot_hart-started
          ∙ ap (λ r. and_then r go_on) ran
          ∙ ap (λ at. prepare img rounds at a1 (record started { memory = memory' })) back
          ∙ done
          ∙ ap
              (λ memory.
                ok (record { run = run; a0 = a1 }) (cleared (record m { memory = memory })))
              final)
  ]
