-- ===== src/Examples/Printing.antt =====
-- firmware/console.c at small inputs.
use zstage.Base.{
  inr, ℕ, zero, suc, ◌++◌, ◌-◌, ◌^◌, ◌≡◌, refl, true, false, none, some, List, [], ◌∷◌, arith,
  codes,
}
use zstage.Memory.{Memory}
use zstage.Machine.{ok, pure, and_then, ◌>>◌}
use zstage.Console.{Devices, Flags, printi, printc_each, nputs}
use zstage.Console.Buffer.{IsWritten}
use zstage.Console.Digits.{IsBase, value}
use zstage.Console.Emit.{padded}
use zstage.Console.Spelled.{digit, spelled, prefix_text}
use zstage.Console.Number.{numeral, number_text, signed_text, numeral-value, printi-number_text}
use zstage.Format.{round}
use zstage.Format.Progress.{AreWords}
use zstage.Format.Print.{snprintf, printf}
use zstage.Format.Print.Render.{render, render_loop, conversion_text}
use zstage.Format.Print.Calls.{snprintf-IsWritten, printf-nputs}
use zstage.Format.Print.Flushes.{IsPlain, AreFull, joined, hand_all, printf-hand_all}
use zstage.Machine.Keeps.{machine_of}
use zstage.Serial.Probe.Output.{printf-frame}
use zstage.Serial.Probe.{console_devices}
use zstage.Examples.{outside, machine, string_at}

abbrev devices : Devices
devices = console_devices outside 0x2000 0x2008

abbrev format : List ℕ
format = codes "%s: %05d %#x%%"

abbrev args : List ℕ
args = 10 ∷ (2 ^ 64 - 42) ∷ 255 ∷ []

abbrev out_text : List ℕ
out_text = codes "abca: -0042 0xff%"

abbrev plain : Flags
plain = record { right = false; zero = true; alternate = false }

args-AreWords : AreWords args
args-AreWords = omega arith

render-out_text : render string_at format args ≡ some out_text
unfolding render render_loop conversion_text round padded number_text signed_text spelled digit
    prefix_text
render-out_text = refl

-- The letter behind `%l` is printed as itself.
render_long : render string_at (codes "%ld") (7 ∷ []) ≡ some (codes "7d")
unfolding render render_loop conversion_text round padded number_text signed_text spelled digit
    prefix_text
render_long = refl

-- After a `%d`, `%llu` skips an argument.
render_skip : render string_at (codes "%d %llu") (1 ∷ 2 ∷ 3 ∷ []) ≡ some (codes "1 3")
unfolding render render_loop conversion_text round padded number_text signed_text spelled digit
    prefix_text
render_skip = refl

-- A format that ends inside a conversion is read past its end.
render_open : render string_at (codes "%5") [] ≡ none
unfolding render render_loop conversion_text round
render_open = refl

snprintf-IsWritten_example :
    (memory' : Memory) × (snprintf string_at devices 0x800 0x900 6 format args machine
      ≡ ok 17 (record machine { memory = memory' }))
    × IsWritten machine.memory 0x900 (codes "abca:") memory'
snprintf-IsWritten_example =
    snprintf-IsWritten string_at devices 0x800 0x900 6 format args out_text machine args-AreWords
      render-out_text

printf-nputs_example :
    (memory' : Memory) × (printf string_at devices 0x800 format args machine
      ≡ and_then (nputs devices 0x800 17 (record machine { memory = memory' })) (λ _. pure 17))
    × IsWritten machine.memory 0x800 out_text memory'
printf-nputs_example =
    printf-nputs string_at devices 0x800 format args out_text machine args-AreWords render-out_text
      (omega arith) (omega arith)

abbrev dashes : ℕ → List ℕ
dashes zero = []
dashes (suc n) = b'-' ∷ dashes n

dashes-IsPlain : (n : ℕ) → IsPlain (dashes n ++ codes "ok")
unfolding IsPlain
dashes-IsPlain zero = (refl, (refl, tt))
dashes-IsPlain (suc n) = (refl, dashes-IsPlain n)

printf-hand_all_example :
    printf string_at devices 0x800 (dashes 128 ++ codes "ok") [] machine
    ≡ (hand_all devices 0x800 (dashes 128 ∷ []) (codes "ok") >> pure 130) machine
unfolding joined AreFull
printf-hand_all_example =
    printf-hand_all devices 0x800 string_at [] (dashes 128 ∷ []) (codes "ok") machine (refl, tt)
      (dashes-IsPlain 128) (omega arith) (omega arith)

-- A console that swallows what it gets.
abbrev mute : Devices
mute d = record { name = []; console_putc = none; console_puts = some (λ str len. pure tt) }

hex : IsBase 16 b'a'
hex = omega arith

printi-number_text_example :
    printi devices (record { out = some 0x900; out_len = none }) 48879 16 false 6 plain b'a' machine
    ≡ printc_each devices
        (number_text 48879 16 false 6 plain b'a')
        (record { out = some 0x900; out_len = none })
        0
        machine
printi-number_text_example =
    printi-number_text devices (record { out = some 0x900; out_len = none }) 48879 16 false 6 plain
      b'a' machine hex (omega arith)

numeral-value_example : value 16 b'a' 0 (numeral 48879 16 b'a') ≡ 48879
numeral-value_example = numeral-value 48879 16 b'a' hex (omega arith)

printf-frame_example :
    (machine_of machine (printf string_at devices 0x800 format args machine)).memory 0x880
    ≡ machine.memory 0x880
printf-frame_example =
    printf-frame outside 0x2000 0x2008 string_at 0x800 format args machine 0x880 (inr (omega arith))
