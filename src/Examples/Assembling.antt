-- ===== src/Examples/Assembling.antt =====
-- What is assembled for a small image with two payloads.
use zstage.Base.{◌≡◌, none, some, arith}
use zstage.Entry.Call.{read_header, read_blobs}
use zstage.Entry.Data.{
  Build, assemble, header_items, table_items, payloads, platdata_items, spare_items, given,
}
use zstage.Entry.Data.Layout.{header_of, blobs_of, read_header-assemble, read_blobs-assemble}
use zstage.Examples.{texts}

abbrev build : Build
build = record {
  jump = 0x6f;
  zstage_start = 0x2000;
  zstage_end = 0x9000;
  spin_addr = 0x3000;
  nmivect = 0x4000;
  nmivect_end = 0x5000;
  platdata = none;
  payload = record { start = 0x7000; end = 0x7800; addr = 0x80000 };
  fdt_addr = 0x90000;
  blob1 = some (record { start = 0x7800; end = 0x7900; addr = 0xa0000 });
  blob2 = none;
  blob3 = some (record { start = 0x7900; end = 0x7980; addr = 0xb0000 });
}

read_header-assemble_example :
    read_header (assemble (header_items build) 0x2000 0 texts) 0x2000 ≡ header_of build
unfolding header_items platdata_items spare_items
read_header-assemble_example = read_header-assemble build 0x2000 texts (omega arith)

read_blobs-assemble_example :
    read_blobs 3 (assemble (table_items (payloads build)) 0x6000 0 texts) 0x6000
    ≡ some (blobs_of (payloads build))
unfolding table_items payloads given
read_blobs-assemble_example =
    read_blobs-assemble (payloads build) 3 0x6000 texts (omega arith) (omega arith)
