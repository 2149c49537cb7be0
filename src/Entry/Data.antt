-- ===== src/Entry/Data.antt =====
-- What firmware/head.S assembles: the header of the image and the table of blobs, as words in memory.
pub mod Layout
use zstage.Base.{ℕ, zero, suc, ◌+◌, ◌-◌, Option, none, some, List, [], ◌∷◌, ◌++◌}
use zstage.Memory.{Memory}
use zstage.Boot.{image_magic, image_version}
use zstage.Entry.{store_bytes}

-- `.word` and `.dword`
pub data Item : Type 0 where
  word dword : (value : ℕ) → Item

pub size_of : Item → ℕ
size_of (word value) = 4
size_of (dword value) = 8

pub value_of : Item → ℕ
value_of (word value) = value
value_of (dword value) = value

-- The items one behind the other, from `start + offset` on.
pub assemble : List Item → (start offset : ℕ) → Memory → Memory
unfolding size_of value_of
assemble [] start offset m = m
assemble (item ∷ items) start offset m =
    assemble items start (offset + size_of item)
      (store_bytes (size_of item) m (start + offset) (value_of item))

-- A payload: where it lies in the image, up to its end, and where it is to go.
pub record Payload : Type 0 where
  pub start : ℕ
  pub end : ℕ
  pub addr : ℕ

-- The symbols of the link and the options of the build that the two tables name.
pub record Build : Type 0 where
  pub jump : ℕ
  pub zstage_start : ℕ
  pub zstage_end : ℕ
  pub spin_addr : ℕ
  pub nmivect : ℕ
  pub nmivect_end : ℕ
  pub platdata : Option (ℕ × ℕ)
  pub payload : Payload
  pub fdt_addr : ℕ
  pub blob1 : Option Payload
  pub blob2 : Option Payload
  pub blob3 : Option Payload

-- `#ifdef ZSTAGE_PLATDATA_SIZE`
unfoldable pub platdata_items : Option (ℕ × ℕ) → List Item
platdata_items none = dword 0 ∷ dword 0 ∷ []
platdata_items (some (start, end)) = dword start ∷ dword (end - start) ∷ []

-- `_zstage_header_reserved2`
unfoldable pub spare_items : ℕ → List Item
spare_items zero = []
spare_items (suc n) = dword 0 ∷ spare_items n

-- From `_start` to `_zstage_header_reserved2`.
unfoldable pub header_items : Build → List Item
unfolding platdata_items spare_items
header_items b =
    (word b.jump
      ∷ word image_magic
      ∷ word image_version
      ∷ word 0
      ∷ dword b.zstage_start
      ∷ dword (b.zstage_end - b.zstage_start)
      ∷ dword b.spin_addr
      ∷ dword b.nmivect
      ∷ dword (b.nmivect_end - b.nmivect)
      ∷ [])
    ++ platdata_items b.platdata
    ++ (dword b.payload.start
        ∷ dword b.payload.addr
        ∷ dword b.fdt_addr
        ∷ dword (b.payload.end - b.payload.start)
        ∷ spare_items 19)

-- `#ifdef ZSTAGE_PAYLOAD_BLOB1_PATH` and its two likes: the payloads that the build has.
unfoldable pub given : Option Payload → List Payload → List Payload
given none rest = rest
given (some blob) rest = blob ∷ rest

unfoldable pub payloads : Build → List Payload
unfolding given
payloads b = given b.blob1 (given b.blob2 (given b.blob3 []))

-- `_zstage_blob_table`, with its sentinel
unfoldable pub table_items : List Payload → List Item
table_items [] = dword 0 ∷ dword 0 ∷ dword 0 ∷ dword 0 ∷ []
table_items (blob ∷ blobs) =
    dword blob.start ∷ dword blob.addr ∷ dword (blob.end - blob.start) ∷ dword 0 ∷ table_items blobs
