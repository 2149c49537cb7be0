-- ===== src/Boot/Reread.antt =====
-- Where zstage_main of firmware/main.c finds its header and its table of blobs as they were at the
-- call, each time it reads them.
use mathlib.Core.Path.{subst}
use mathlib.Core.Option.{some-injective}
use zstage.Base.{
  ℕ, zero, suc, ◌+◌, ◌*◌, ◌<◌, ◌≤◌, ◌≡◌, ◌⊎◌, inl, inr, refl, ap, sym, ◌∙◌, Bool, true, false, not,
  ◌||◌, Option-cases, Bool-cases, none, some, List, [], ◌∷◌, ◌==◌, if◌then◌else◌, length, arith,
  is_zero, codes, pos,
}
use zstage.Memory.{Memory}
use zstage.Machine.{Machine, Cmd, get, pure, ◌>>=◌, ◌>>◌, and_then}
use zstage.Machine.Laws.{and_then_cong_at}
use zstage.Machine.Keeps.{machine_of}
use zstage.Machine.Spares.{Spares}
use zstage.Entry.{reg_l}
use zstage.Entry.Words.{load_bytes-shift}
use zstage.Boot.{
  Platform, ImageHeader, PayloadBlob, image_magic, image_version, zstage_hang, copy, say,
  platform_early_init, platform_prepare_fdt, platform_final_init, zstage_console_init, check,
  say_copying, say_console, copy_blobs, copy_next_stage, boot, zstage_main,
}
use zstage.Boot.Frame.{
  IsOutside, IsOutsideBlobs, copy_blobs-Spares, copy-Spares, say-Spares, check-Spares,
  say_copying-Spares, console_init-Spares, prepare_fdt-Spares, next_stage-Spares,
  say_console-Spares,
}
use zstage.Entry.Call.Prepared.{read_header-shift}
use zstage.Boot.InMemory.{
  read_header, read_blob, read_blobs, header_now, blob_now, copy_blobs_at, copy_next_stage_at,
  boot_at, zstage_main_at,
}

-- The machine still has the bytes of `R` as in `m0`.
abbrev Kept : (R : ℕ → Type 0) → Memory → Machine → Type 0
Kept R m0 m = (q : ℕ) → R q → m.memory q ≡ m0 q

module _ (R : ℕ → Type 0) (m0 : Memory) where
  -- The two commands run alike while the bytes of `R` are kept.
  record Alike {A : Type 0} (c d : Cmd A) : Type 0 where
    pub alike : (m : Machine) → Kept R m0 m → c m ≡ d m

  same-Alike : {A : Type 0} (c : Cmd A) → Alike c c
  same-Alike c = record { alike = λ m kept. refl }

  bind-Alike :
      {A B : Type 0} (c : Cmd A) (k k' : A → Cmd B)
      → ((q : ℕ) → R q → Spares q c)
      → ((a : A) → Alike (k a) (k' a))
      → Alike (c >>= k) (c >>= k')
  bind-Alike c k k' spares hk = record {
    alike = λ m kept. and_then_cong_at (c m) k k' (λ a m' e. (hk a).alike m' (λ q r.
        ap (λ run. (machine_of m run).memory q) (sym e) ∙ (spares q r).spares m ∙ kept q r));
  }

  then-Alike :
      {B : Type 0} (c c' : Cmd (Unit {0})) (d d' : Cmd B)
      → Alike c c'
      → ((q : ℕ) → R q → Spares q c')
      → Alike d d'
      → Alike (c >> d) (c' >> d')
  then-Alike c c' d d' first spares h = record {
    alike = λ m kept.
        ap (λ r. and_then r (λ _. d)) (first.alike m kept)
        ∙ (bind-Alike c' (λ _. d) (λ _. d') spares (λ u. h)).alike m kept;
  }

  if-Alike :
      {A : Type 0} (b : Bool) (c c' d : Cmd A)
      → Alike c c'
      → Alike (if b then d else c) (if b then d else c')
  if-Alike true c c' d h = same-Alike d
  if-Alike false c c' d h = h

  else-Alike :
      {A : Type 0} (b : Bool) (c c' d : Cmd A)
      → Alike c c'
      → Alike (if b then c else d) (if b then c' else d)
  else-Alike true c c' d h = h
  else-Alike false c c' d h = same-Alike d

  -- What is read of the bytes of `R` is what was read at first.
  read-Alike :
      {X A : Type 0} (f : Memory → X) (x : X) (k : X → Cmd A) (d : Cmd A)
      → ((m : Machine) → Kept R m0 m → f m.memory ≡ x)
      → Alike (k x) d
      → Alike ((get >>= λ m. pure (f m.memory)) >>= k) d
  read-Alike f x k d read h = record {
    alike = λ m kept. ap (λ y. k y m) (read m kept) ∙ h.alike m kept;
  }

read_blob-shift :
    (m m' : Memory) (p : ℕ)
    → ((i : ℕ) → i < 32 → m (p + i) ≡ m' (p + i))
    → read_blob m p ≡ read_blob m' p
read_blob-shift m m' p h =
    let field = λ (o : ℕ) (inside : o + 8 ≤ 32). load_bytes-shift 8 m m' (p + o) (p + o) (λ i lt.
      let at : p + o + i ≡ p + (o + i) = omega arith in
      let e : m (p + o + i) ≡ m' (p + o + i) = rw at (h (o + i) (omega arith)) in e) in
    λ i. record {
      src_addr = load_bytes-shift 8 m m' p p (λ j lt. h j (omega arith)) i;
      dst_addr = field 8 (omega arith) i;
      size = field 16 (omega arith) i;
      reserved = field 24 (omega arith) i;
    }

read_blobs-cases :
    (fuel : ℕ) (m : Memory) (addr : ℕ) (blobs : List PayloadBlob)
    → read_blobs (suc fuel) m addr ≡ some blobs
    → (((read_blob m addr).size == 0 ≡ true) × (blobs ≡ read_blob m addr ∷ []))
      ⊎ (((read_blob m addr).size == 0 ≡ false)
          × (rest : List PayloadBlob) × (read_blobs fuel m (addr + 32) ≡ some rest)
          × (blobs ≡ read_blob m addr ∷ rest))
unfolding read_blobs
read_blobs-cases fuel m addr blobs table = elim (Bool-cases (reg_l m (addr + 16) == 0)) [
  | inl empty ↦
      let all : some (read_blob m addr ∷ []) ≡ some blobs = rw (read_blobs, empty) at table in
      inl (empty, some-injective _ _ (sym all))
  | inr full ↦ elim (Option-cases (read_blobs fuel m (addr + 32))) [
    | inl none_e ↦ let bad : none ≡ some blobs = rw (read_blobs, full, none_e) at table in cc
    | inr (rest, rest_e) ↦
        let all : some (read_blob m addr ∷ rest) ≡ some blobs =
          rw (read_blobs, full, rest_e) at table in
        inr (full, rest, rest_e, some-injective _ _ (sym all))
  ]
]

module _ (p : Platform) (R : ℕ → Type 0) (m0 : Memory)
    (apart : (q : ℕ) → R q → IsOutside p.tbuf 128 q) where
  abbrev Same : {A : Type 0} (c d : Cmd A) → Type 0
  Same c d = Alike R m0 c d

  said : (format args : List ℕ) (q : ℕ) → R q → Spares q (say p format args)
  said format args q r = say-Spares p q (apart q r) format args

  blob_now-Same :
      {A : Type 0} (addr : ℕ) (k : PayloadBlob → Cmd A) (d : Cmd A)
      → ((i : ℕ) → i < 32 → R (addr + i))
      → Same (k (read_blob m0 addr)) d
      → Same (blob_now addr >>= k) d
  unfolding blob_now
  blob_now-Same addr k d inside h =
      read-Alike R m0 (λ m. read_blob m addr) (read_blob m0 addr) k d
        (λ m kept. read_blob-shift m.memory m0 addr (λ i lt. kept (addr + i) (inside i lt))) h

  abbrev copy_now : (fuel addr : ℕ) → PayloadBlob → Cmd (Unit {0})
  copy_now fuel addr again =
      copy again.dst_addr again.src_addr again.size >> copy_blobs_at p fuel (addr + 32)

  -- A round of the loop from where the size of the blob is known.
  abbrev blob_round : (fuel addr : ℕ) → PayloadBlob → Cmd (Unit {0})
  blob_round fuel addr blob =
      if blob.size == 0
      then pure tt
      else say_copying p (codes "blob") blob.size blob.dst_addr blob.src_addr
        >> (blob_now addr >>= copy_now fuel addr)

  one_blob-Same :
      (fuel addr : ℕ) (blobs : List PayloadBlob)
      → ((i : ℕ) → i < 32 → R (addr + i))
      → ((q : ℕ)
          → R q
          → ((read_blob m0 addr).size == 0 ≡ true)
            ⊎ IsOutside (read_blob m0 addr).dst_addr (read_blob m0 addr).size q)
      → ((read_blob m0 addr).size == 0 ≡ true)
        ⊎ Same (copy_blobs_at p fuel (addr + 32)) (copy_blobs p blobs)
      → Same (copy_blobs_at p (suc fuel) addr) (copy_blobs p (read_blob m0 addr ∷ blobs))
  unfolding copy_blobs_at copy_blobs
  one_blob-Same fuel addr blobs inside outside (inl empty) =
      blob_now-Same addr (blob_round fuel addr) _ inside (rw empty (same-Alike R m0 (pure tt)))
  one_blob-Same fuel addr blobs inside outside (inr later) =
      let blob = read_blob m0 addr in
      elim (Bool-cases (blob.size == 0)) [
        | inl empty ↦
            blob_now-Same addr (blob_round fuel addr) _ inside
              (rw empty (same-Alike R m0 (pure tt)))
        | inr full ↦ blob_now-Same addr (blob_round fuel addr) _ inside (
            rw full (
              bind-Alike R m0 (say_copying p (codes "blob") blob.size blob.dst_addr blob.src_addr) _
                _ (λ q r. say_copying-Spares p q (apart q r) _ _ _ _)
                (λ u. blob_now-Same addr (copy_now fuel addr) _ inside (
                  bind-Alike R m0 (copy blob.dst_addr blob.src_addr blob.size) _ _
                    (λ q r.
                      copy-Spares blob.dst_addr blob.src_addr blob.size q
                        (elim (outside q r) [ inl empty ↦ cc | inr away ↦ away ]))
                    (λ u'. later)))))
      ]

  -- The table is still the one that was read first.
  copy_blobs-Same :
      (fuel addr : ℕ) (blobs : List PayloadBlob)
      → read_blobs fuel m0 addr ≡ some blobs
      → ((i : ℕ) → i < 32 * length blobs → R (addr + i))
      → ((q : ℕ) → R q → IsOutsideBlobs blobs q)
      → Same (copy_blobs_at p fuel addr) (copy_blobs p blobs)
  copy_blobs-Same zero addr blobs table inside outside = unfold read_blobs in cc
  copy_blobs-Same (suc fuel) addr blobs table inside outside =
      let blob = read_blob m0 addr in
      elim (read_blobs-cases fuel m0 addr blobs table) [
        | inl (empty, all) ↦
            let few : length blobs ≡ 1 = rw all refl in
            rw all (
              one_blob-Same fuel addr [] (λ i lt. inside i (omega arith)) (λ q r. inl empty)
                (inl empty))
        | inr (full, rest, table', all) ↦
            let more : length blobs ≡ suc (length rest) = rw all refl in
            let away = λ (q : ℕ) (r : R q). subst (λ bs. IsOutsideBlobs bs q) all (outside q r) in
            rw all (
              one_blob-Same fuel addr rest (λ i lt. inside i (omega arith))
                (λ q r. elim (away q r) [
                  | inl none_left ↦ inl (ground arith)
                  | inr (here, later) ↦ inr here
                ])
                (inr (
                  copy_blobs-Same fuel (addr + 32) rest table'
                    (λ i lt.
                      let at : addr + 32 + i ≡ addr + (32 + i) = omega arith in
                      rw at (inside (32 + i) (omega arith)))
                    (λ q r. elim (away q r) [
                      | inl none_left ↦ let bad : (blob.size == 0) ≡ true = ground arith in cc
                      | inr (here, later) ↦ later
                    ]))))
      ]

  module _ (at : ℕ) (hdr : ImageHeader) (header : read_header m0 at ≡ hdr)
      (inside : (i : ℕ) → i < 256 → R (at + i)) where
    header_now-Same :
        {A : Type 0} (k : ImageHeader → Cmd A) (d : Cmd A)
        → Same (k hdr) d
        → Same (header_now at >>= k) d
    unfolding header_now
    header_now-Same k d h =
        read-Alike R m0 (λ m. read_header m at) hdr k d
          (λ m kept.
            read_header-shift m.memory m0 at at (λ i lt. kept (at + i) (inside i lt)) ∙ header)
          h

    abbrev copy_next : ImageHeader → Cmd (Unit {0})
    copy_next again = copy again.next_run_addr again.next_load_addr again.next_size

    abbrev next_round : ImageHeader → Cmd (Unit {0})
    next_round h =
        if h.next_load_addr == h.next_run_addr
        then pure tt
        else say_copying p (codes "next stage") h.next_size h.next_run_addr h.next_load_addr
          >> (header_now at >>= copy_next)

    copy_next_stage-Same : Same (copy_next_stage_at p at) (copy_next_stage p hdr)
    unfolding copy_next_stage_at copy_next_stage
    copy_next_stage-Same = header_now-Same next_round (copy_next_stage p hdr) (
        if-Alike R m0 (hdr.next_load_addr == hdr.next_run_addr) _ _ (pure tt) (
          bind-Alike R m0
            (say_copying p (codes "next stage") hdr.next_size hdr.next_run_addr hdr.next_load_addr)
            _ _ (λ q r. say_copying-Spares p q (apart q r) _ _ _ _)
            (λ u.
              header_now-Same copy_next _
                (same-Alike R m0 (copy hdr.next_run_addr hdr.next_load_addr hdr.next_size)))))

    module _ (boot_arg1 fuel table_at : ℕ) (blobs : List PayloadBlob)
        (table : read_blobs fuel m0 table_at ≡ some blobs)
        (in_table : (i : ℕ) → i < 32 * length blobs → R (table_at + i))
        (no_blob : (q : ℕ) → R q → IsOutsideBlobs blobs q)
        (no_fdt : (q : ℕ)
          → R q
          → (memory : Memory) → IsOutside hdr.next_fdt_addr (p.libfdt memory boot_arg1).totalsize q)
        (no_next : (q : ℕ)
          → R q
          → (hdr.next_load_addr ≡ hdr.next_run_addr)
            ⊎ IsOutside hdr.next_run_addr hdr.next_size q) where
      abbrev to_end : Cmd (Unit {0})
      to_end = platform_final_init p boot_arg1 >>= λ rc.
          check p rc (codes "zstage: platform final init failed (error %d)\n")
          >> say p (codes "zstage: jumping to next booting stage\n") []

      abbrev say_next : ImageHeader → Cmd (Unit {0})
      say_next h =
          say p (codes "zstage: next booting stage at 0x%lx (%lu bytes)\n")
            (h.next_run_addr ∷ h.next_size ∷ [])
          >> to_end

      abbrev prepare : ImageHeader → Cmd (Unit {0})
      prepare h = platform_prepare_fdt p boot_arg1 h >>= λ rc.
          check p rc (codes "zstage: platform FDT prepare failed (error %d)\n")
          >> (copy_next_stage_at p at >> (header_now at >>= say_next))

      abbrev say_fdt : ImageHeader → Cmd (Unit {0})
      say_fdt h =
          say p (codes "zstage: setup platform FDT at 0x%lx\n") (h.next_fdt_addr ∷ [])
          >> (header_now at >>= prepare)

      say_next-Same : Same (say_next hdr) (say_next hdr)
      say_next-Same = same-Alike R m0 (say_next hdr)

      prepare-Same : Same (prepare hdr) (
          platform_prepare_fdt p boot_arg1 hdr >>= λ rc.
          check p rc (codes "zstage: platform FDT prepare failed (error %d)\n")
          >> (copy_next_stage p hdr >> say_next hdr))
      prepare-Same =
          bind-Alike R m0 (platform_prepare_fdt p boot_arg1 hdr) _ _
            (λ q r. prepare_fdt-Spares p q (apart q r) boot_arg1 hdr (no_fdt q r))
            (λ rc.
              bind-Alike R m0
                (check p rc (codes "zstage: platform FDT prepare failed (error %d)\n")) _ _
                (λ q r. check-Spares p q (apart q r) rc _)
                (λ u.
                  then-Alike R m0 (copy_next_stage_at p at) (copy_next_stage p hdr)
                    (header_now at >>= say_next) (say_next hdr) copy_next_stage-Same
                    (λ q r. next_stage-Spares p q (apart q r) hdr (no_next q r))
                    (header_now-Same say_next (say_next hdr) say_next-Same)))

      say_fdt-Same : Same (say_fdt hdr) (
          say p (codes "zstage: setup platform FDT at 0x%lx\n") (hdr.next_fdt_addr ∷ [])
          >> (platform_prepare_fdt p boot_arg1 hdr >>= λ rc.
              check p rc (codes "zstage: platform FDT prepare failed (error %d)\n")
              >> (copy_next_stage p hdr >> say_next hdr)))
      say_fdt-Same =
          bind-Alike R m0
            (say p (codes "zstage: setup platform FDT at 0x%lx\n") (hdr.next_fdt_addr ∷ [])) _ _
            (said _ _) (λ u. header_now-Same prepare _ prepare-Same)

      boot-Same : Same (boot_at p fuel boot_arg1 at table_at) (boot p boot_arg1 hdr blobs)
      unfolding boot_at boot platform_early_init
      boot-Same = bind-Alike R m0 (say p _ _) _ _ (said _ _) (λ u.
          bind-Alike R m0
            (check p (pos 0) (codes "zstage: platform early init failed (error %d)\n")) _ _
            (λ q r.
              check-Spares p q (apart q r) (pos 0)
                (codes "zstage: platform early init failed (error %d)\n"))
            (λ u1.
              bind-Alike R m0 (say_console p) _ _ (λ q r. say_console-Spares p q (apart q r))
                (λ u2.
                  then-Alike R m0 (copy_blobs_at p fuel table_at) (copy_blobs p blobs)
                    (header_now at >>= say_fdt) _
                    (copy_blobs-Same fuel table_at blobs table in_table no_blob)
                    (λ q r. copy_blobs-Spares p q (apart q r) blobs (no_blob q r))
                    (header_now-Same say_fdt _ say_fdt-Same))))

      main_step : ImageHeader → Cmd (Unit {0})
      unfolding boot_at
      main_step h =
          if not (h.magic == image_magic) || not (h.version == image_version)
          then zstage_hang
          else (do
            rc ← zstage_console_init p boot_arg1
            if is_zero rc then boot_at p fuel boot_arg1 at table_at else zstage_hang)

      zstage_main-Same :
          Alike R m0
            (zstage_main_at p fuel boot_arg1 at table_at)
            (zstage_main p boot_arg1 hdr blobs)
      unfolding zstage_main_at zstage_main main_step
      zstage_main-Same = header_now-Same main_step _ (
          if-Alike R m0 (not (hdr.magic == image_magic) || not (hdr.version == image_version)) _ _
            zstage_hang
            (bind-Alike R m0 (zstage_console_init p boot_arg1) _ _
              (λ q r. console_init-Spares p q (apart q r) boot_arg1)
              (λ rc. else-Alike R m0 (is_zero rc) _ _ zstage_hang boot-Same)))

-- The address lies in the header at `at` or in the table of `n` blobs at `table_at`.
abbrev pub IsRead : (at table_at n q : ℕ) → Type 0
IsRead at table_at n q = ((at ≤ q) × (q < at + 256)) ⊎ ((table_at ≤ q) × (q < table_at + 32 * n))

-- A byte that a boot does not write: it is neither in print's buffer nor in the target of a copy, the
-- device tree being of the size that libfdt reads in whatever memory.
pub record IsUntouched (p : Platform) (boot_arg1 : ℕ) (hdr : ImageHeader) (blobs : List PayloadBlob)
    (q : ℕ) : Type 0 where
  pub no_print : IsOutside p.tbuf 128 q
  pub no_blob : IsOutsideBlobs blobs q
  pub no_fdt :
      (memory : Memory) → IsOutside hdr.next_fdt_addr (p.libfdt memory boot_arg1).totalsize q
  pub no_next :
      (hdr.next_load_addr ≡ hdr.next_run_addr) ⊎ IsOutside hdr.next_run_addr hdr.next_size q

pub zstage_main_at-zstage_main :
    (p : Platform) (fuel boot_arg1 at table_at : ℕ) (hdr : ImageHeader) (blobs : List PayloadBlob)
    (m : Machine)
    → read_header m.memory at ≡ hdr
    → read_blobs fuel m.memory table_at ≡ some blobs
    → ((q : ℕ) → IsRead at table_at (length blobs) q → IsUntouched p boot_arg1 hdr blobs q)
    → zstage_main_at p fuel boot_arg1 at table_at m ≡ zstage_main p boot_arg1 hdr blobs m
zstage_main_at-zstage_main p fuel boot_arg1 at table_at hdr blobs m header table untouched =
    (zstage_main-Same p (IsRead at table_at (length blobs)) m.memory
        (λ q r. (untouched q r).no_print) at hdr header (λ i lt. inl (omega arith)) boot_arg1 fuel
        table_at blobs table (λ i lt. inr (omega arith)) (λ q r. (untouched q r).no_blob)
        (λ q r. (untouched q r).no_fdt) (λ q r. (untouched q r).no_next)).alike
      m (λ q r. refl)
