-- ===== src/Format/Print/Calls.antt =====
-- sprintf, snprintf and printf of firmware/console.c against the renderer.
use zstage.Base.{
  ℕ, ◌+◌, ◌-◌, ◌<◌, ◌≡◌, refl, true, false, some, List, length, take, take-eq_self, lt→ltb, arith,
  inl, inr,
}
use zstage.Memory.{Memory}
use zstage.Machine.{Machine, pure, ok, and_then}
use zstage.Machine.Laws.{and_then_assoc}
use zstage.Console.{Devices, nputs}
use zstage.Console.Buffer.{
  IsWritten, text_memory, text_memory-IsWritten, printc_each-unbounded, printc_each-bounded,
}
use zstage.Format.Progress.{AreWords}
use zstage.Format.Print.{print, sprintf, snprintf, printf}
use zstage.Format.Print.Render.{render, print_loop-render_loop}

from_zero : (cs : List ℕ) → 0 + length cs ≡ length cs
from_zero cs = omega arith

taken : (cs : List ℕ) → length cs < 128 → 128 - (128 - length cs) ≡ length cs
taken cs h = omega arith

module _ (string_at : ℕ → List ℕ) (dev : Devices) (tbuf : ℕ) where
  -- From 64-bit arguments, and for a format that stands for `cs`, `sprintf` returns the number
  -- of characters, writes them at `out` with a NUL behind them, and changes nothing else; where
  -- there is no character it writes nothing, not even the NUL.
  pub sprintf-IsWritten :
      (out : ℕ) (format args cs : List ℕ) (m : Machine)
      → AreWords args
      → render string_at format args ≡ some cs
      → (memory' : Memory) × (sprintf string_at dev tbuf out format args m
          ≡ ok (length cs) (record m { memory = memory' }))
        × IsWritten m.memory out cs memory'
  unfolding sprintf print render
  sprintf-IsWritten out format args cs m w e = (
    text_memory m.memory out cs,
    rw (
      print_loop-render_loop string_at dev tbuf false (length format + 1) _ format args 0 0 cs m w e
          (inl refl),
      printc_each-unbounded dev cs out 0 m,
      from_zero cs,
    ),
    text_memory-IsWritten cs m.memory out,
  )

  -- From 64-bit arguments, and for a format that stands for `cs`, `snprintf` returns the number
  -- of all characters, writes the first `out_sz - 1` of them with a NUL behind them, and changes
  -- nothing else; where it writes no character it does not write the NUL either.
  pub snprintf-IsWritten :
      (out out_sz : ℕ) (format args cs : List ℕ) (m : Machine)
      → AreWords args
      → render string_at format args ≡ some cs
      → (memory' : Memory) × (snprintf string_at dev tbuf out out_sz format args m
          ≡ ok (length cs) (record m { memory = memory' }))
        × IsWritten m.memory out (take (out_sz - 1) cs) memory'
  unfolding snprintf print render
  snprintf-IsWritten out out_sz format args cs m w e = (
    text_memory m.memory out (take (out_sz - 1) cs),
    rw (
      print_loop-render_loop string_at dev tbuf false (length format + 1) _ format args 0 0 cs m w e
          (inl refl),
      printc_each-bounded dev cs out out_sz 0 m,
      from_zero cs,
    ),
    text_memory-IsWritten (take (out_sz - 1) cs) m.memory out,
  )

  -- From 64-bit arguments, and for a format that stands for `cs`, of 1 to 127 characters, `printf`
  -- writes them to its buffer and changes no other memory, hands exactly them to `nputs` in one
  -- call, and returns their number where `nputs` returns.
  pub printf-nputs :
      (format args cs : List ℕ) (m : Machine)
      → AreWords args
      → render string_at format args ≡ some cs
      → 0 < length cs
      → length cs < 128
      → (memory' : Memory) × (printf string_at dev tbuf format args m
          ≡ and_then
              (nputs dev tbuf (length cs) (record m { memory = memory' }))
              (λ _. pure (length cs)))
        × IsWritten m.memory tbuf cs memory'
  unfolding printf print render
  printf-nputs format args cs m w e some_char few = (
    text_memory m.memory tbuf cs,
    rw
        (
          print_loop-render_loop string_at dev tbuf true (length format + 1) _ format args 0 0 cs m
              w e (inr (tbuf, 128, refl, few)),
          printc_each-bounded dev cs tbuf 128 0 m,
          take-eq_self 127 cs (omega arith),
          from_zero cs,
          lt→ltb (128 - length cs) 128 (omega arith),
          taken cs few,
        )
        (and_then_assoc (nputs dev tbuf (length cs) _) _ _),
    text_memory-IsWritten cs m.memory tbuf,
  )
