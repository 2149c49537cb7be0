-- ===== src/Examples/Entering.antt =====
-- The entry code on a small image, and two harts that enter it.
use zstage.Base.{ℕ, ◌+◌, ◌<◌, ◌≡◌, ◌⊎◌, inl, refl, true, false, arith, if◌then◌else◌, ◌==◌}
use zstage.Memory.{Memory, IsBytes}
use zstage.Machine.{Machine, ok, stop, hung}
use zstage.Entry.{Image, load_bytes, blt}
use zstage.Entry.Relocate.{Relocated, relocate-moved}
use zstage.Entry.InUse.{IsLaidOut}
use zstage.Entry.Call.{read_header, boot_hart}
use zstage.Entry.Call.Prepared.{IsPlaced, IsPrepared}
use zstage.Entry.Call.BootHart.{boot_hart-IsPrepared}
use zstage.Entry.Harts.{
  Config, Pc, start, relocating, waiting, spinning, jumped, Move, win, lose, mark, call, finish,
  release, go_on, jump, System, pick, Reach, initial, later, set_at,
}
use zstage.Entry.Harts.Safety.{Reach-boot_hart, Reach-copied, Reach-jumped}
use zstage.Examples.{machine}

abbrev pub image : Image
image = record {
  relocate_lottery = 256;
  load_start = 264;
  boot_arg1 = 272;
  boot_status = 280;
  spin_addr = 288;
  relocate = 120;
  relocate_done = 200;
  bss_start = 296;
  bss_end = 304;
  blob_table = 304;
}

-- The image of 320 bytes at 0x1000, for 0x2000.
abbrev loaded : Memory
loaded q =
    if q == 0x1011
    then 0x20
    else if q == 0x1018
    then 0x40
    else if q == 0x1019
    then 1
    else if q == 0x1109
    then 0x10
    else 0

loaded-IsBytes : IsBytes loaded
loaded-IsBytes q = ground arith

abbrev at_entry : Machine
at_entry = record machine { memory = loaded }

image-IsLaidOut : IsLaidOut image 320
image-IsLaidOut = record { lottery = omega arith; status = omega arith; code = omega arith }

image-IsPlaced : IsPlaced image 320 0
image-IsPlaced = record {
  laid = image-IsLaidOut;
  load_start = omega arith;
  boot_arg1 = omega arith;
  behind = omega arith;
  bss = omega arith;
  bss_words = omega arith;
  words_apart = inl (omega arith);
  arg_apart = inl (omega arith);
  status_apart = inl (omega arith);
}

relocate-moved_example : Relocated image 40 0x1000 0x2000 320 at_entry
unfolding load_bytes
relocate-moved_example =
    relocate-moved image 39 40 0x1000 0x2000 320 at_entry loaded-IsBytes refl refl refl
      image-IsLaidOut refl (omega arith) refl (omega arith)

boot_hart-IsPrepared_example :
    ((m' : Machine) × (boot_hart image 40 0x1000 7 at_entry ≡ stop hung m')
      × (0x2000 < 0x1000 + 320)
      × (0x1000 < 0x2000 + 320))
    ⊎ ((m' : Machine) × (boot_hart image 40 0x1000 7 at_entry
          ≡ ok (record { run = 0x2000; a0 = 7 }) m')
        × IsPrepared image 0x1000 0x2000 (read_header loaded 0x1000) m')
unfolding load_bytes
boot_hart-IsPrepared_example =
    boot_hart-IsPrepared image 39 0 40 0x1000 0x2000 320 7 at_entry loaded-IsBytes refl refl
      image-IsPlaced refl (omega arith) refl (omega arith) (omega arith)

abbrev config : Config
config = record { no_spin = true; relocates = true; next_run_addr = 0x8000 }

-- Hart 0 wins and goes on to the release, hart 1 waits.
abbrev order : System
order = record {
  shared = record {
    lottery = 2;
    boot_status = 1;
    spin_addr = 0x8000;
    copied = true;
    finished = true;
  };
  pc =
      set_at
        (set_at
          (set_at
            (set_at (set_at (set_at (set_at (λ i. start) 0 relocating) 1 waiting) 0 Pc.relocated) 0
              Pc.marked)
            0 Pc.in_main)
          0 Pc.returned)
        0 Pc.released;
}

order-Reach : Reach config 2 order
order-Reach =
    later
      (later
        (later
          (later
            (later
              (later (later initial (pick 0 (omega arith) (win refl)))
                (pick 1 (omega arith) (lose (omega arith) refl)))
              (pick 0 (omega arith) Move.relocate))
            (pick 0 (omega arith) mark))
          (pick 0 (omega arith) call))
        (pick 0 (omega arith) finish))
      (pick 0 (omega arith) (release refl))

Reach-boot_hart_example : ◌≡◌ {A = ℕ} 0 0
Reach-boot_hart_example = Reach-boot_hart (omega arith) order-Reach 0 0 refl refl

Reach-copied_example : order.shared.copied ≡ true
Reach-copied_example = Reach-copied (omega arith) order-Reach 0 refl

-- Then hart 1 goes on.
abbrev gone : System
gone = record { shared = order.shared; pc = set_at (set_at order.pc 1 spinning) 1 (jumped 0x8000) }

gone-Reach : Reach config 2 gone
unfolding blt
gone-Reach =
    later (later order-Reach (pick 1 (omega arith) (go_on refl)))
      (pick 1 (omega arith) (jump refl (omega arith)))

Reach-jumped_example :
    (gone.shared.finished ≡ true) × ((config.no_spin ≡ false) ⊎ (0x8000 ≡ config.next_run_addr))
Reach-jumped_example = Reach-jumped (omega arith) gone-Reach 1 0x8000 refl
