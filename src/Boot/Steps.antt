-- ===== src/Boot/Steps.antt =====
-- The steps of firmware/main.c: a line that is printed, and a copy that is made.
use zstage.Base.{ℕ, ◌+◌, ◌<◌, ◌≤◌, ◌⊎◌, refl, ◌∙◌, List, length, arith}
use zstage.Memory.{Memory, IsBytes}
use zstage.CString.{memcpy}
use zstage.CString.Copy.{moved}
use zstage.Console.{Devices}
use zstage.Console.Buffer.{IsWritten}
use zstage.Format.Print.Calls.{printf-nputs}
use zstage.Serial.Probe.{console_devices}
use zstage.Boot.{Platform, say, copy}
use zstage.Boot.Lines.{IsLine}
use zstage.Boot.Effect.{Agree, IsApart, Leads, Speaker, IsSpeaking, memcpy-Agree-moved}

module _ (p : Platform) (d : Speaker) where
  abbrev pub devices : Devices
  devices = console_devices p.outside p.tohost p.fromhost

  written-Agree :
      (m m' memory : Memory) (cs : List ℕ)
      → length cs < 128
      → IsWritten m p.tbuf cs m'
      → Agree p.tbuf m memory
      → Agree p.tbuf m' memory
  written-Agree m m' memory cs short written same = λ q h. written.same q (omega arith) ∙ same q h

  -- A line returns, and leaves what it wrote to print's buffer.
  pub say-Leads :
      (format args : List ℕ) (memory : Memory)
      → IsSpeaking devices d
      → IsLine p.string_at format args
      → Leads p.tbuf d (say p format args) tt memory memory
  unfolding say
  say-Leads format args memory speaking line = record {
    run = λ m near.
        let (memory', printed, written) =
          printf-nputs p.string_at devices p.tbuf format args line.text m line.words line.renders
            line.some_char line.short in
        let m1 = record m { memory = memory' } in
        let (m2, spoken, kept, same_console, heard) =
          speaking.speaks p.tbuf (length line.text) m1 near.console near.heard in
        (
          m2,
          rw printed (rw spoken refl),
          record {
            agrees =
                rw kept
                  (written-Agree m.memory memory' memory line.text line.short written near.agrees);
            console = same_console ∙ near.console;
            heard = heard;
          },
        );
  }

  pub copy-Leads :
      (dest src count : ℕ) (memory : Memory)
      → IsBytes memory
      → IsApart p.tbuf src count
      → (dest ≤ src) ⊎ (src + count ≤ dest)
      → Leads p.tbuf d (copy dest src count) tt memory (moved memory dest src count)
  unfolding copy
  copy-Leads dest src count memory b apart order = record {
    run = λ m near. (
      record m { memory = memcpy m.memory dest src count },
      refl,
      record {
        agrees = memcpy-Agree-moved p.tbuf count m.memory memory dest src b apart order near.agrees;
        console = near.console;
        heard = near.heard;
      },
    );
  }
