-- ===== src/Serial/Htif/Fields.antt =====
-- The fields of a command in firmware/serial/htif.c.
use zstage.Base.{ℕ, ◌+◌, ◌*◌, ◌%◌, ◌^◌, ◌<◌, ◌≡◌, arith}
use zstage.Base.Bits.{bit_or-add}
use zstage.Serial.Htif.{tohost_cmd, fromhost_dev, fromhost_cmd, fromhost_data}

tohost_cmd-sum :
    (dev cmd payload : ℕ)
    → dev < 2 ^ 8
    → cmd < 2 ^ 8
    → payload < 2 ^ 48
    → tohost_cmd dev cmd payload ≡ dev * 2 ^ 56 + (cmd * 2 ^ 48 + payload)
unfolding tohost_cmd
tohost_cmd-sum dev cmd payload hd hc hp =
    let high : dev * 2 ^ 56 % 2 ^ 64 ≡ dev * 2 ^ 56 = omega arith in
    let middle : cmd * 2 ^ 48 % 2 ^ 64 ≡ cmd * 2 ^ 48 = omega arith in
    rw (high, middle, bit_or-add 48 cmd payload hp)
      (bit_or-add 56 dev (cmd * 2 ^ 48 + payload) (omega arith))

-- The device, the command and the data that make up a command of 64 bits read back from it.
pub tohost_cmd-fields :
    (dev cmd payload : ℕ)
    → dev < 2 ^ 8
    → cmd < 2 ^ 8
    → payload < 2 ^ 48
    → (fromhost_dev (tohost_cmd dev cmd payload) ≡ dev)
      × (fromhost_cmd (tohost_cmd dev cmd payload) ≡ cmd)
      × (fromhost_data (tohost_cmd dev cmd payload) ≡ payload)
tohost_cmd-fields dev cmd payload hd hc hp =
    let sum = tohost_cmd-sum dev cmd payload hd hc hp in
    rw sum (omega arith, omega arith, omega arith)
