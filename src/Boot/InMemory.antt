-- ===== src/Boot/InMemory.antt =====
-- zstage_main of firmware/main.c with pointers to its header and its table of blobs: it reads them
-- anew at each use, behind each print and each copy.
use zstage.Base.{
  ℕ, zero, suc, ◌+◌, not, ◌||◌, Option, none, some, List, [], ◌∷◌, ◌==◌, if◌then◌else◌, is_zero,
  codes,
}
use zstage.Memory.{Memory}
use zstage.Machine.{Cmd, pure, halt, waiting, get, ◌>>=◌, ◌>>◌}
use zstage.Boot.{
  Platform, ImageHeader, PayloadBlob, image_magic, image_version, version_major, version_minor,
  zstage_hang, copy, say, platform_early_init, platform_prepare_fdt, platform_final_init,
  zstage_console_init, check, say_copying, say_console,
}
use zstage.Entry.{load_bytes, reg_l}

-- A `struct zstage_image_header` at `p`.
unfoldable pub words : (n : ℕ) → Memory → (p : ℕ) → List ℕ
words zero m p = []
words (suc n) m p = reg_l m p ∷ words n m (p + 8)

unfoldable pub read_header : Memory → (p : ℕ) → ImageHeader
unfolding words
read_header m p = record {
  jump_insn = load_bytes 4 m p;
  magic = load_bytes 4 m (p + 4);
  version = load_bytes 4 m (p + 8);
  reserved1 = load_bytes 4 m (p + 12);
  image_run_addr = reg_l m (p + 16);
  image_size = reg_l m (p + 24);
  image_spin_addr = reg_l m (p + 32);
  image_nmivect_addr = reg_l m (p + 40);
  image_nmivect_size = reg_l m (p + 48);
  image_platdata_addr = reg_l m (p + 56);
  image_platdata_size = reg_l m (p + 64);
  next_load_addr = reg_l m (p + 72);
  next_run_addr = reg_l m (p + 80);
  next_fdt_addr = reg_l m (p + 88);
  next_size = reg_l m (p + 96);
  reserved2 = words 19 m (p + 104);
}

-- The `struct zstage_payload_blob`s at `p` up to the one of size 0; `none` where the fuel runs out.
unfoldable pub read_blobs : (fuel : ℕ) → Memory → (p : ℕ) → Option (List PayloadBlob)
read_blobs zero m p = none
read_blobs (suc fuel) m p =
    let blob : PayloadBlob = record {
      src_addr = reg_l m p;
      dst_addr = reg_l m (p + 8);
      size = reg_l m (p + 16);
      reserved = reg_l m (p + 24);
    } in
    let rest = read_blobs fuel m (p + 32) in
    if reg_l m (p + 16) == 0
    then some (blob ∷ [])
    else elim rest [ none ↦ none | some blobs ↦ some (blob ∷ blobs) ]

-- A `struct zstage_payload_blob` at `p`.
abbrev pub read_blob : Memory → (p : ℕ) → PayloadBlob
read_blob m p = record {
  src_addr = reg_l m p;
  dst_addr = reg_l m (p + 8);
  size = reg_l m (p + 16);
  reserved = reg_l m (p + 24);
}

-- `hdr` and `blobs` as they stand.
unfoldable pub header_now : (p : ℕ) → Cmd ImageHeader
unfolding read_header
header_now p = do m ← get; pure (read_header m.memory p)

unfoldable pub blob_now : (p : ℕ) → Cmd PayloadBlob
blob_now p = do m ← get; pure (read_blob m.memory p)

module _ (p : Platform) where
  -- `while (blobs->size) { … blobs++; }`; fuel bounds the rounds.
  unfoldable pub copy_blobs_at : (fuel blobs : ℕ) → Cmd (Unit {0})
  unfolding blob_now
  copy_blobs_at zero blobs = halt waiting
  copy_blobs_at (suc fuel) blobs =
      let rest = copy_blobs_at fuel (blobs + 32) in
      blob_now blobs >>= λ blob. if blob.size == 0 then pure tt else (do
        say_copying p (codes "blob") blob.size blob.dst_addr blob.src_addr
        blob ← blob_now blobs
        copy blob.dst_addr blob.src_addr blob.size
        rest)

  unfoldable pub copy_next_stage_at : (hdr : ℕ) → Cmd (Unit {0})
  unfolding header_now
  copy_next_stage_at hdr = header_now hdr >>= λ h.
      if h.next_load_addr == h.next_run_addr then pure tt else (do
        say_copying p (codes "next stage") h.next_size h.next_run_addr h.next_load_addr
        h ← header_now hdr
        copy h.next_run_addr h.next_load_addr h.next_size)

  -- `zstage_main` behind the check of the header and the console's init.
  unfoldable pub boot_at : (fuel boot_arg1 hdr blobs : ℕ) → Cmd (Unit {0})
  unfolding header_now copy_blobs_at copy_next_stage_at
  boot_at fuel boot_arg1 hdr blobs = do
    say p (codes "\nVentana zStage v%d.%d\n") (version_major ∷ version_minor ∷ [])
    rc ← platform_early_init p boot_arg1
    check p rc (codes "zstage: platform early init failed (error %d)\n")
    say_console p
    copy_blobs_at fuel blobs
    h ← header_now hdr
    say p (codes "zstage: setup platform FDT at 0x%lx\n") (h.next_fdt_addr ∷ [])
    h ← header_now hdr
    rc ← platform_prepare_fdt p boot_arg1 h
    check p rc (codes "zstage: platform FDT prepare failed (error %d)\n")
    copy_next_stage_at hdr
    h ← header_now hdr
    say p (codes "zstage: next booting stage at 0x%lx (%lu bytes)\n")
        (h.next_run_addr ∷ h.next_size ∷ [])
    rc ← platform_final_init p boot_arg1
    check p rc (codes "zstage: platform final init failed (error %d)\n")
    say p (codes "zstage: jumping to next booting stage\n") []

  unfoldable pub zstage_main_at : (fuel boot_arg1 hdr blobs : ℕ) → Cmd (Unit {0})
  unfolding header_now boot_at
  zstage_main_at fuel boot_arg1 hdr blobs = header_now hdr >>= λ h.
      if not (h.magic == image_magic) || not (h.version == image_version) then zstage_hang else (do
        rc ← zstage_console_init p boot_arg1
        if is_zero rc then boot_at fuel boot_arg1 hdr blobs else zstage_hang)
