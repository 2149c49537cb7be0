-- ===== src/Entry/Call/Prepared.antt =====
-- What zstage_main finds when firmware/head.S calls it.
use zstage.Base.{
  ℕ, zero, suc, ◌+◌, ◌-◌, ◌*◌, ◌^◌, ◌<◌, ◌≤◌, ◌≡◌, ◌⊎◌, refl, ap, ◌∙◌, none, false, arith,
}
use zstage.Memory.{Memory}
use zstage.CString.{memset}
use zstage.CString.Copy.{within, memset_lem}
use zstage.Machine.{Machine, Cmd, pure, get, put, ok, and_then, ◌>>=◌, ◌>>◌}
use zstage.Boot.{ImageHeader}
use zstage.Entry.{Image, reg_l, reg_s, add, sub, la, load, save, bss_zero, header_image_run_addr}
use zstage.Entry.Words.{load_bytes-cong, load_bytes-shift, load_bytes-store_bytes, store_bytes-away}
use zstage.Entry.Loops.{bss_zero-memset}
use zstage.Entry.InUse.{IsLaidOut}
use zstage.Entry.Call.{Call, words, read_header, cleared, prepare}

-- The header first, and behind it the words of .data and whole words of .bss, apart from each
-- other.
pub record IsPlaced (img : Image) (size zeros : ℕ) : Type 0 where
  pub laid : IsLaidOut img size
  pub load_start : (256 ≤ img.load_start) × (img.load_start + 8 ≤ size)
  pub boot_arg1 : (256 ≤ img.boot_arg1) × (img.boot_arg1 + 8 ≤ size)
  pub behind : 256 ≤ img.boot_status
  pub bss : (256 ≤ img.bss_start) × (img.bss_end ≤ size)
  pub bss_words : img.bss_end ≡ img.bss_start + (8 + 8 * zeros)
  pub words_apart : (img.boot_arg1 + 8 ≤ img.boot_status) ⊎ (img.boot_status + 8 ≤ img.boot_arg1)
  pub arg_apart : (img.boot_arg1 + 8 ≤ img.bss_start) ⊎ (img.bss_end ≤ img.boot_arg1)
  pub status_apart : (img.boot_status + 8 ≤ img.bss_start) ⊎ (img.bss_end ≤ img.boot_status)

words-shift :
    (n : ℕ) (m m' : Memory) (p p' : ℕ)
    → ((i : ℕ) → i < 8 * n → m (p + i) ≡ m' (p' + i))
    → words n m p ≡ words n m' p'
unfolding words
words-shift zero m m' p p' h = refl
words-shift (suc n) m m' p p' h =
    rw
      (
        load_bytes-shift 8 m m' p p' (λ i lt. h i (omega arith)),
        words-shift n m m' (p + 8) (p' + 8) (λ i lt.
            let at : p + 8 + i ≡ p + (8 + i) = omega arith in
            let at' : p' + 8 + i ≡ p' + (8 + i) = omega arith in
            rw (at, at') (h (8 + i) (omega arith))),
      )
      refl

-- The header is its 256 bytes.
pub read_header-shift :
    (m m' : Memory) (p p' : ℕ)
    → ((i : ℕ) → i < 256 → m (p + i) ≡ m' (p' + i))
    → read_header m p ≡ read_header m' p'
unfolding read_header
read_header-shift m m' p p' h =
    let shifted = λ (o : ℕ) (i : ℕ) (lt : o + i < 256).
      let at : p + o + i ≡ p + (o + i) = omega arith in
      let at' : p' + o + i ≡ p' + (o + i) = omega arith in
      let e : m (p + o + i) ≡ m' (p' + o + i) = rw (at, at') (h (o + i) lt) in e in
    let field = λ (n o : ℕ) (inside : o + n ≤ 256).
      load_bytes-shift n m m' (p + o) (p' + o) (λ i lt. shifted o i (omega arith)) in
    λ i. record {
      jump_insn = load_bytes-shift 4 m m' p p' (λ j lt. h j (omega arith)) i;
      magic = field 4 4 (omega arith) i;
      version = field 4 8 (omega arith) i;
      reserved1 = field 4 12 (omega arith) i;
      image_run_addr = field 8 16 (omega arith) i;
      image_size = field 8 24 (omega arith) i;
      image_spin_addr = field 8 32 (omega arith) i;
      image_nmivect_addr = field 8 40 (omega arith) i;
      image_nmivect_size = field 8 48 (omega arith) i;
      image_platdata_addr = field 8 56 (omega arith) i;
      image_platdata_size = field 8 64 (omega arith) i;
      next_load_addr = field 8 72 (omega arith) i;
      next_run_addr = field 8 80 (omega arith) i;
      next_fdt_addr = field 8 88 (omega arith) i;
      next_size = field 8 96 (omega arith) i;
      reserved2 = words-shift 19 m m' (p + 104) (p' + 104) (λ j lt. shifted 104 j (omega arith)) i;
    }

-- What zstage_main finds, with `header` the header of the image as it was loaded.
pub record IsPrepared (img : Image) (base run : ℕ) (header : ImageHeader) (m : Machine)
    : Type 0 where
  pub same_header : read_header m.memory run ≡ header
  pub marked : reg_l m.memory (base + img.boot_status) ≡ 1
  pub zeros :
      (q : ℕ)
      → (within (run + img.bss_start) (img.bss_end - img.bss_start) q ≡ false) ⊎ (m.memory q ≡ 0)
  pub no_console : m.console_dev ≡ none

pub IsPrepared-header :
    (img : Image) (base run : ℕ) (m : Machine) {header header' : ImageHeader}
    → header ≡ header'
    → IsPrepared img base run header m
    → IsPrepared img base run header' m
IsPrepared-header img base run m e p = record {
  same_header = p.same_header ∙ e;
  marked = p.marked;
  zeros = p.zeros;
  no_console = p.no_console;
}

-- A memory with the flag set in the loaded image, the boot argument saved and .bss zero.
unfoldable pub finished : Image → (zeros base run a1 : ℕ) → Memory → Memory
finished img zeros base run a1 memory =
    memset (reg_s (reg_s memory (base + img.boot_status) 1) (run + img.boot_arg1) a1)
      (run + img.bss_start) 0 (8 + 8 * zeros)

module _ (img : Image) (size zeros rounds base run a1 : ℕ) (m : Machine)
    (placed : IsPlaced img size zeros) (fits : (base + size < 2 ^ 63) × (run + size < 2 ^ 63))
    (enough : zeros < rounds) (word : a1 < 2 ^ 64)
    (run_word : reg_l m.memory (la run header_image_run_addr) ≡ run)
    (base_word : reg_l m.memory (la run img.load_start) ≡ base)
    (status_apart : (run ≡ base)
      ⊎ ((base + img.boot_status + 8 ≤ run) ⊎ (run + size ≤ base + img.boot_status))) where
  marked_memory : Memory
  marked_memory = reg_s m.memory (base + img.boot_status) 1

  saved_memory : Memory
  unfolding marked_memory
  saved_memory = reg_s marked_memory (run + img.boot_arg1) a1

  status_at : add (sub (la run img.boot_status) run) base ≡ base + img.boot_status
  status_at = omega (arith, placed.laid.status)

  arg_at : la run img.boot_arg1 ≡ run + img.boot_arg1
  arg_at = omega (arith, placed.boot_arg1)

  bss_at : la run img.bss_start ≡ run + img.bss_start
  bss_at = omega (arith, placed.bss, placed.bss_words)

  bss_end_at : la run img.bss_end ≡ run + img.bss_end
  bss_end_at = omega (arith, placed.bss)

  pub prepare-saved :
      (memory' : Memory) × (prepare img rounds run a1 m
        ≡ ok (record { run = run; a0 = a1 }) (cleared (record m { memory = memory' })))
      × ((q : ℕ) → memory' q ≡ finished img zeros base run a1 m.memory q)
  unfolding prepare load save marked_memory saved_memory finished
  prepare-saved =
      let (memory', ran, there) =
        bss_zero-memset zeros rounds (run + img.bss_start) (run + img.bss_end)
          (record m { memory = saved_memory }) (omega (arith, placed.bss_words))
          (omega (arith, placed.bss, placed.bss_words)) enough in
      let kept : reg_l memory' (run + img.boot_arg1) ≡ a1 =
        load_bytes-cong 8 memory' saved_memory (run + img.boot_arg1) (λ q lo hi. ground (
          arith,
          there q,
          memset_lem (8 + 8 * zeros) saved_memory (run + img.bss_start) 0 q,
          placed.arg_apart,
          placed.bss_words,
        ))
        ∙ load_bytes-store_bytes 8 marked_memory (run + img.boot_arg1) a1 word in
      let tail : Cmd Call =
        (get >>= λ m2. put (cleared m2))
        >> (load (la run img.boot_arg1) >>= λ a0. pure (record { run = run; a0 = a0 })) in
      let step : prepare img rounds run a1 m
          ≡ and_then
              (bss_zero rounds (run + img.bss_start) (run + img.bss_end)
                (record m { memory = saved_memory }))
              (λ _. tail) =
        rw (run_word, base_word, status_at, arg_at, bss_at, bss_end_at) refl in
      let done : tail (record m { memory = memory' })
          ≡ ok (record { run = run; a0 = a1 }) (cleared (record m { memory = memory' })) =
        rw (arg_at, kept) refl in
      (memory', step ∙ ap (λ r. and_then r (λ _. tail)) ran ∙ done, there)

  saved-away :
      (q : ℕ)
      → within (run + img.boot_arg1) 8 q ≡ false
      → within (base + img.boot_status) 8 q ≡ false
      → saved_memory q ≡ m.memory q
  unfolding saved_memory marked_memory
  saved-away q no_arg no_status =
      store_bytes-away 8 marked_memory (run + img.boot_arg1) a1 q (ground arith)
      ∙ store_bytes-away 8 m.memory (base + img.boot_status) 1 q (ground arith)

  pub prepare-IsPrepared :
      (m' : Machine) × (prepare img rounds run a1 m ≡ ok (record { run = run; a0 = a1 }) m')
      × IsPrepared img base run (read_header m.memory run) m'
  unfolding saved_memory marked_memory finished
  prepare-IsPrepared =
      let (memory', ran, there) = prepare-saved in
      let m' = cleared (record m { memory = memory' }) in
      (
        m',
        ran,
        record {
          same_header = read_header-shift m'.memory m.memory run run (λ i lt. ground (
            arith,
            there (run + i),
            memset_lem (8 + 8 * zeros) saved_memory (run + img.bss_start) 0 (run + i),
            saved-away (run + i),
            placed.bss,
            placed.boot_arg1,
            placed.behind,
            placed.laid.status,
            status_apart,
          ));
          marked =
              load_bytes-cong 8 m'.memory marked_memory (base + img.boot_status) (λ q lo hi.
                ground (
                  arith,
                  there q,
                  memset_lem (8 + 8 * zeros) saved_memory (run + img.bss_start) 0 q,
                  store_bytes-away 8 marked_memory (run + img.boot_arg1) a1 q,
                  placed.bss,
                  placed.bss_words,
                  placed.boot_arg1,
                  placed.words_apart,
                  placed.status_apart,
                  status_apart,
                ))
              ∙ load_bytes-store_bytes 8 m.memory (base + img.boot_status) 1 (omega arith);
          zeros = λ q. ground (
            arith,
            there q,
            memset_lem (8 + 8 * zeros) saved_memory (run + img.bss_start) 0 q,
            placed.bss_words,
          );
          no_console = refl;
        },
      )
