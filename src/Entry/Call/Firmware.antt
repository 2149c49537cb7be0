-- ===== src/Entry/Call/Firmware.antt =====
-- The boot hart of firmware/head.S from the lottery to the jump to the next stage.
use zstage.Memory.{Memory}
use zstage.Machine.{Machine}
use zstage.Entry.Call.{Call}
