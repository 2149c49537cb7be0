-- ===== src/Serial/Semihosting/Once.antt =====
-- How often firmware/serial/semihosting.c looks for a debugger.
use zstage.Base.{[], ◌∷◌, ◌≡◌, refl, Bool, false, Bool-cases, inl, inr}
use zstage.Machine.{semihost, Outside, Machine, ok}
use zstage.Serial.Semihosting.{semihosting_test}

-- `semihosting_test` returns, and from then on it gives the same answer and does nothing else, no
-- call of the host either.
pub semihosting_test-same :
    (env : Outside) (m : Machine)
    → (works : Bool) × (m' : Machine) × (semihosting_test env m ≡ ok works m')
      × (semihosting_test env m' ≡ ok works m')
unfolding semihosting_test
semihosting_test-same env m = elim (Bool-cases m.semihosting.try_semihosting) [
  | inr tried ↦ (m.semihosting.enabled, m, rw tried refl, rw tried refl)
  | inl first ↦ elim (Bool-cases env.debugger) [
    | inl debugger ↦ (
      m.semihosting.enabled,
      record m {
        trace = semihost 0x13 [] (env.trap m.trace 0x13 []) ∷ m.trace;
        semihosting = record m.semihosting { try_semihosting = false };
      },
      rw first (rw debugger refl),
      refl,
    )
    | inr alone ↦ (
      false,
      record m { semihosting = record m.semihosting { try_semihosting = false; enabled = false } },
      rw first (rw alone refl),
      refl,
    )
  ]
]
