-- ===== src/Serial/Semihosting/Frame.antt =====
-- semihosting_serial_init of firmware/serial/semihosting.c leaves the memory alone.
use zstage.Base.{ℕ, refl, codes, Bool-cases, inl, inr, not, pos}
use zstage.Machine.{Outside}
use zstage.Machine.Spares.{
  Spares, pure-Spares, bind-Spares, then-Spares, if-Spares, set-Spares, KeepsDriver-Spares,
}
use zstage.Machine.Total.{IsTotal-Spares}
use zstage.Console.Wire.{console_set_device-KeepsDriver}
use zstage.Fdt.{enodev}
use zstage.Serial.Semihosting.{
  trap, semihosting_test, semihosting_open, semihosting_serial_init, mode_write,
}
use zstage.Serial.Semihosting.Debugger.{semihosting_open-IsTotal}

module _ (env : Outside) where
  -- However `semihosting_test` is called, the memory stays as it was.
  pub semihosting_test-Spares : (q : ℕ) → Spares q (semihosting_test env)
  unfolding semihosting_test trap
  semihosting_test-Spares q = record {
    spares = λ m. elim (Bool-cases m.semihosting.try_semihosting) [
      | inr tried ↦ rw tried refl
      | inl first ↦ elim (Bool-cases env.debugger) [
        | inl debugger ↦ rw first (rw debugger refl)
        | inr no_debugger ↦ rw first (rw no_debugger refl)
      ]
    ];
  }

pub semihosting_serial_init-Spares :
    (q : ℕ) (env : Outside) → Spares q (semihosting_serial_init env)
unfolding semihosting_serial_init
semihosting_serial_init-Spares q env =
    bind-Spares q (semihosting_test env) _ (semihosting_test-Spares env q) (λ works.
      if-Spares q (not works) _ _ (pure-Spares q enodev) (
        bind-Spares q (semihosting_open env (codes ":tt") mode_write) _
          (IsTotal-Spares q _ (semihosting_open-IsTotal env (codes ":tt") mode_write))
          (λ fd.
            set-Spares q (λ m. refl)
              (λ m.
                then-Spares q (KeepsDriver-Spares q _ (console_set_device-KeepsDriver _))
                  (pure-Spares q (pos 0))))))
