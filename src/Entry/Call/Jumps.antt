-- ===== src/Entry/Call/Jumps.antt =====
-- From the call of zstage_main in firmware/head.S to the jump to the next stage.
use zstage.Base.{
  ℕ, ◌+◌, if◌then◌else◌, ◌^◌, ◌<◌, ◌≤◌, ◌≡◌, ◌⊎◌, inl, inr, refl, ap, ◌∙◌, Bool, true, false, some,
  List, length, arith,
}
use zstage.Memory.{Memory, IsBytes}
use zstage.CString.Copy.{within}
use zstage.Machine.{Machine, Cmd, pure, ok, and_then, ◌>>=◌, ◌>>◌}
use zstage.Boot.{Platform, PayloadBlob}
use zstage.Machine.Keeps.{machine_of}
use zstage.Boot.{zstage_main}
use zstage.Boot.Frame.{zstage_main-frame}
use zstage.Boot.InMemory.{zstage_main_at}
use zstage.Boot.Reread.{IsRead, IsUntouched, zstage_main_at-zstage_main}
use zstage.Boot.Effect.{Agree, IsApart}
use zstage.Boot.Plan.{booted}
use zstage.Entry.{Image, reg_l, reg_s, la, load, save}
use zstage.Entry.Words.{
  load_bytes-shift, load_bytes-lt, load_bytes-store_bytes, load_bytes-away, store_bytes-away,
}
use zstage.Entry.Call.{
  Jump, read_header, read_blobs, call_main, header_next_run_addr, header_next_fdt_addr,
}
use mathlib.Core.Path.{subst}
use zstage.Base.{sym}
use zstage.Boot.{ImageHeader}

-- What a jump goes to where the header at `run` names the next stage.
jump_of : (hartid run : ℕ) → Memory → Jump
jump_of hartid run memory = record {
  pc = reg_l memory (run + header_next_run_addr);
  a0 = hartid;
  a1 = reg_l memory (run + header_next_fdt_addr);
}

module _ (p : Platform) (img : Image) (fuel hartid run a0 : ℕ) (hdr : ImageHeader) (m m1 : Machine)
    (header : read_header m.memory run ≡ hdr)
    (ran : zstage_main_at p fuel a0 (la run 0) (la run img.blob_table) m ≡ ok tt m1)
    (behind : 96 ≤ img.spin_addr) (fits : run + img.spin_addr + 8 < 2 ^ 63) where
  after : (no_spin : Bool) → Cmd Jump
  after no_spin = do
    t1 ← load (la run header_next_run_addr)
    if no_spin then save (la run img.spin_addr) t1 else pure tt
    a1 ← load (la run header_next_fdt_addr)
    t0 ← load (la run header_next_run_addr)
    pure (record { pc = t0; a0 = hartid; a1 = a1 })

  call_main-after :
      (no_spin : Bool)
      → call_main p img no_spin fuel hartid (record { run = run; a0 = a0 }) m ≡ after no_spin m1
  unfolding call_main after load save
  call_main-after no_spin = ap (λ r. and_then r (λ _. after no_spin)) ran

  run_at : la run header_next_run_addr ≡ run + header_next_run_addr
  run_at = omega (arith, behind, fits)

  fdt_at : la run header_next_fdt_addr ≡ run + header_next_fdt_addr
  fdt_at = omega (arith, behind, fits)

  spin_at : la run img.spin_addr ≡ run + img.spin_addr
  spin_at = omega (arith, behind, fits)

  after-spin : after false m1 ≡ ok (jump_of hartid run m1.memory) m1
  unfolding after load save jump_of
  after-spin = rw (run_at, fdt_at) refl

  released : Machine
  released = record m1 {
    memory = reg_s m1.memory (run + img.spin_addr) (reg_l m1.memory (run + header_next_run_addr));
  }

  after-no_spin : after true m1 ≡ ok (jump_of hartid run released.memory) released
  unfolding after load save jump_of released
  after-no_spin = rw (run_at, fdt_at, spin_at) refl

  -- What call_main leaves, where the spin word and the header's words do not meet.
  IsJumped : (no_spin : Bool) → Type 0
  IsJumped no_spin =
      (m' : Machine) × (call_main p img no_spin fuel hartid (record { run = run; a0 = a0 }) m
        ≡ ok (jump_of hartid run m1.memory) m')
      × ((q : ℕ) → within (run + img.spin_addr) 8 q ≡ false → m'.memory q ≡ m1.memory q)
      × ((no_spin ≡ false)
          ⊎ (reg_l m'.memory (run + img.spin_addr) ≡ reg_l m1.memory (run + header_next_run_addr)))
      × (m'.console_dev ≡ m1.console_dev)

  call_main-IsJumped :
      (no_spin : Bool) → reg_l m1.memory (run + header_next_run_addr) < 2 ^ 64 → IsJumped no_spin
  unfolding released jump_of IsJumped
  call_main-IsJumped false b =
      (m1, call_main-after false ∙ after-spin, λ q away. refl, inl refl, refl)
  call_main-IsJumped true b =
      let word = reg_l m1.memory (run + header_next_run_addr) in
      let kept = λ (o : ℕ) (h : o + 8 ≤ 96).
        load_bytes-away 8 8 m1.memory (run + img.spin_addr) word (run + o)
          (inl (omega (arith, behind))) in
      let same : jump_of hartid run released.memory ≡ jump_of hartid run m1.memory = λ i. record {
        pc = kept header_next_run_addr (omega arith) i;
        a0 = hartid;
        a1 = kept header_next_fdt_addr (omega arith) i;
      } in
      (
        released,
        call_main-after true ∙ after-no_spin ∙ ap (λ j. ok j released) same,
        λ q away. store_bytes-away 8 m1.memory (run + img.spin_addr) word q (ground arith),
        inr (load_bytes-store_bytes 8 m1.memory (run + img.spin_addr) word b),
        refl,
      )

words-kept :
    (p : Platform) (run a0 table_at : ℕ) (hdr : ImageHeader) (blobs : List PayloadBlob)
    (m m1 : Machine)
    → zstage_main p a0 hdr blobs m ≡ ok tt m1
    → ((q : ℕ) → IsRead run table_at (length blobs) q → IsUntouched p a0 hdr blobs q)
    → (i : ℕ) → i < 16
    → m1.memory (run + header_next_run_addr + i) ≡ m.memory (run + header_next_run_addr + i)
words-kept p run a0 table_at hdr blobs m m1 ran untouched i lt =
    let u = untouched (run + header_next_run_addr + i) (inl (omega arith)) in
    ap (λ r. (machine_of m r).memory (run + header_next_run_addr + i)) (sym ran)
    ∙ zstage_main-frame p _ u.no_print a0 hdr blobs u.no_blob u.no_fdt u.no_next m

-- Where zstage_main has returned with all in its place, where no byte of the header and of the table
-- is written by the boot, and where the spin word lies behind the header's two words for the jump.
pub call_main-jumps :
    (p : Platform) (img : Image) (no_spin : Bool) (fuel hartid run a0 : ℕ) (hdr : ImageHeader)
    (blobs : List PayloadBlob) (m m1 : Machine)
    → read_header m.memory run ≡ hdr
    → IsBytes m.memory
    → read_blobs fuel m.memory (la run img.blob_table) ≡ some blobs
    → zstage_main p a0 hdr blobs m ≡ ok tt m1
    → Agree p.tbuf m1.memory (booted p a0 hdr blobs m.memory)
    → ((q : ℕ) → IsRead run (la run img.blob_table) (length blobs) q → IsUntouched p a0 hdr blobs q)
    → 96 ≤ img.spin_addr
    → run + img.spin_addr + 8 < 2 ^ 63
    → (m' : Machine) × (call_main p img no_spin fuel hartid (record { run = run; a0 = a0 }) m
        ≡ ok (record { pc = hdr.next_run_addr; a0 = hartid; a1 = hdr.next_fdt_addr }) m')
      × ((q : ℕ)
          → IsApart p.tbuf q 1
          → within (run + img.spin_addr) 8 q ≡ false
          → m'.memory q ≡ booted p a0 hdr blobs m.memory q)
      × ((no_spin ≡ false) ⊎ (reg_l m'.memory (run + img.spin_addr) ≡ hdr.next_run_addr))
      × (m'.console_dev ≡ m1.console_dev)
unfolding IsJumped jump_of read_header
call_main-jumps p img no_spin fuel hartid run a0 hdr blobs m m1 header b table ran there untouched
      behind fits =
    let word = λ (o : ℕ) (h : o + 8 ≤ 16).
      load_bytes-shift 8 m1.memory m.memory (run + header_next_run_addr + o)
        (run + header_next_run_addr + o)
        (λ i lt.
          let at : run + header_next_run_addr + o + i ≡ run + header_next_run_addr + (o + i) =
            omega arith in
          rw at (
            words-kept p run a0 (la run img.blob_table) hdr blobs m m1 ran untouched (o + i)
              (omega arith))) in
    let start : la run 0 ≡ run = omega (arith, fits) in
    let ran_at : zstage_main_at p fuel a0 (la run 0) (la run img.blob_table) m ≡ ok tt m1 =
      ap (λ at. zstage_main_at p fuel a0 at (la run img.blob_table) m) start
      ∙ zstage_main_at-zstage_main p fuel a0 run (la run img.blob_table) hdr blobs m header table
          untouched
      ∙ ran in
    let run_word : reg_l m1.memory (run + header_next_run_addr) ≡ hdr.next_run_addr =
      let at : run + header_next_run_addr ≡ run + header_next_run_addr + 0 = omega arith in
      rw at (word 0 (omega arith)) ∙ (λ i. (header i).next_run_addr) in
    let fdt_word : reg_l m1.memory (run + header_next_fdt_addr) ≡ hdr.next_fdt_addr =
      let at : run + header_next_fdt_addr ≡ run + header_next_run_addr + 8 = omega arith in
      rw at (word 8 (omega arith)) ∙ (λ i. (header i).next_fdt_addr) in
    let small : hdr.next_run_addr < 2 ^ 64 =
      subst (λ (w : ℕ). w < 2 ^ 64) (λ i. (header i).next_run_addr)
        (load_bytes-lt 8 m.memory (run + header_next_run_addr) b) in
    let (m', jumps, left, released, same) =
      call_main-IsJumped p img fuel hartid run a0 hdr m m1 header ran_at behind fits no_spin
        (subst (λ (w : ℕ). w < 2 ^ 64) (sym run_word) small) in
    (
      m',
      jumps ∙ ap (λ j. ok j m') (λ i. record { pc = run_word i; a0 = hartid; a1 = fdt_word i }),
      λ q outside away. left q away ∙ there q outside,
      elim released [ inl spins ↦ inl spins | inr free ↦ inr (free ∙ run_word) ],
      same,
    )
