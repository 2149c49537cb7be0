-- ===== src/Examples/Jumping.antt =====
-- The call of zstage_main by the entry code, and the jump to the next stage.
use zstage.Base.{◌==◌, List, [], ◌∷◌, if◌then◌else◌}
use zstage.Memory.{Memory}
use zstage.Machine.{Machine}
use zstage.Boot.{PayloadBlob}
use zstage.Entry.Call.BootHart.{at_call}
use zstage.Examples.Booting.{fresh}
use zstage.Examples.Entering.{image}

-- A header at 0x1000, for a next stage of 16 bytes from 0x3000 to 0x4000 and a device tree at
-- 0x5000; behind it a table of one blob of 4 bytes from 0x6000 to 0x3000.
abbrev linked : Memory
linked q =
    if q == 0x1004
    then 0x7a
    else if q == 0x1005
    then 0x73
    else if q == 0x1006
    then 0x74
    else if q == 0x1007
    then 0x67
    else if q == 0x100a
    then 1
    else if q == 0x1049
    then 0x30
    else if q == 0x1051
    then 0x40
    else if q == 0x1059
    then 0x50
    else if q == 0x1060
    then 16
    else if q == 0x1131
    then 0x60
    else if q == 0x1139
    then 0x30
    else if q == 0x1140
    then 4
    else 0

abbrev blobs : List PayloadBlob
blobs =
    record { src_addr = 0x6000; dst_addr = 0x3000; size = 4; reserved = 0 }
    ∷ record { src_addr = 0; dst_addr = 0; size = 0; reserved = 0 }
    ∷ []

-- The same image, of 400 bytes, loaded at 0x1000 for 0x2000.
abbrev moving : Memory
moving q =
    if q == 0x1011 then 0x20 else if q == 0x1018 then 0x90 else if q == 0x1019 then 1 else linked q

abbrev at_start : Machine
at_start = record fresh { memory = moving }

abbrev there : Machine
there = at_call image 0 0x1000 0x2000 400 0x200 at_start
