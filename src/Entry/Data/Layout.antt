-- ===== src/Entry/Data/Layout.antt =====
-- What firmware/head.S assembles, as the structures of image_header.h and payload_blob.h read it.
use mathlib.Core.Path.{subst}
use zstage.Base.{
  ℕ, zero, suc, ◌+◌, ◌-◌, ◌^◌, ◌<◌, ◌≤◌, ◌≡◌, inl, inr, refl, ap, ◌∙◌, Option, none, some, List, [],
  ◌∷◌, ◌++◌, ◌==◌, if◌then◌else◌, Bool-cases, arith, length,
}
use zstage.Memory.{Memory}
use zstage.Boot.{ImageHeader, PayloadBlob, image_magic, image_version}
use zstage.Entry.{load_bytes, store_bytes}
use zstage.Entry.Words.{load_bytes-store_bytes, load_bytes-away}
use zstage.Entry.Call.{words, read_header, read_blobs}
use zstage.Entry.Data.{
  Item, word, dword, size_of, value_of, assemble, Payload, Build, platdata_items, spare_items,
  header_items, table_items,
}

-- The items fit their words.
abbrev pub Fit : List Item → Type 0
Fit [] = Unit {0}
Fit (word value ∷ items) = (value < 2 ^ 32) × Fit items
Fit (dword value ∷ items) = (value < 2 ^ 64) × Fit items

-- The items are what is loaded at `start + offset` and behind.
abbrev pub Holds : List Item → (start offset : ℕ) → Memory → Type 0
Holds [] start offset m = Unit {0}
Holds (word value ∷ items) start offset m =
    (load_bytes 4 m (start + offset) ≡ value) × Holds items start (offset + 4) m
Holds (dword value ∷ items) start offset m =
    (load_bytes 8 m (start + offset) ≡ value) × Holds items start (offset + 8) m

assemble-below :
    (items : List Item) (start offset k p : ℕ) (m : Memory)
    → p + k ≤ start + offset
    → load_bytes k (assemble items start offset m) p ≡ load_bytes k m p
unfolding assemble size_of value_of
assemble-below [] start offset k p m h = refl
assemble-below (word value ∷ items) start offset k p m h =
    assemble-below items start (offset + 4) k p (store_bytes 4 m (start + offset) value)
      (omega arith)
    ∙ load_bytes-away 4 k m (start + offset) value p (inl h)
assemble-below (dword value ∷ items) start offset k p m h =
    assemble-below items start (offset + 8) k p (store_bytes 8 m (start + offset) value)
      (omega arith)
    ∙ load_bytes-away 8 k m (start + offset) value p (inl h)

-- What is assembled is there.
pub assemble-Holds :
    (items : List Item) (start offset : ℕ) (m : Memory)
    → Fit items
    → Holds items start offset (assemble items start offset m)
unfolding assemble size_of value_of
assemble-Holds [] start offset m fit = tt
assemble-Holds (word value ∷ items) start offset m (fits, fit) =
    let stored = store_bytes 4 m (start + offset) value in
    (
      assemble-below items start (offset + 4) 4 (start + offset) stored (omega arith)
          ∙ load_bytes-store_bytes 4 m (start + offset) value fits,
      assemble-Holds items start (offset + 4) stored fit,
    )
assemble-Holds (dword value ∷ items) start offset m (fits, fit) =
    let stored = store_bytes 8 m (start + offset) value in
    (
      assemble-below items start (offset + 8) 8 (start + offset) stored (omega arith)
          ∙ load_bytes-store_bytes 8 m (start + offset) value fits,
      assemble-Holds items start (offset + 8) stored fit,
    )

-- The header that the build means.
nothing : ℕ → List ℕ
nothing zero = []
nothing (suc n) = 0 ∷ nothing n

platdata_addr : Option (ℕ × ℕ) → ℕ
platdata_addr none = 0
platdata_addr (some (start, end)) = start

platdata_size : Option (ℕ × ℕ) → ℕ
platdata_size none = 0
platdata_size (some (start, end)) = end - start

pub header_of : Build → ImageHeader
unfolding nothing platdata_addr platdata_size
header_of b = record {
  jump_insn = b.jump;
  magic = image_magic;
  version = image_version;
  reserved1 = 0;
  image_run_addr = b.zstage_start;
  image_size = b.zstage_end - b.zstage_start;
  image_spin_addr = b.spin_addr;
  image_nmivect_addr = b.nmivect;
  image_nmivect_size = b.nmivect_end - b.nmivect;
  image_platdata_addr = platdata_addr b.platdata;
  image_platdata_size = platdata_size b.platdata;
  next_load_addr = b.payload.start;
  next_run_addr = b.payload.addr;
  next_fdt_addr = b.fdt_addr;
  next_size = b.payload.end - b.payload.start;
  reserved2 = nothing 19;
}

words-nothing :
    (n start offset : ℕ) (m : Memory)
    → Holds (spare_items n) start offset m
    → words n m (start + offset) ≡ nothing n
unfolding words spare_items nothing
words-nothing zero start offset m h = refl
words-nothing (suc n) start offset m (here, rest) =
    let next : start + offset + 8 ≡ start + (offset + 8) = omega arith in
    rw (here, next, words-nothing n start (offset + 8) m rest) refl

platdata-Holds :
    (platdata : Option (ℕ × ℕ)) (rest : List Item) (start offset : ℕ) (m : Memory)
    → Holds (platdata_items platdata ++ rest) start offset m
    → (load_bytes 8 m (start + offset) ≡ platdata_addr platdata)
      × (load_bytes 8 m (start + (offset + 8)) ≡ platdata_size platdata)
      × Holds rest start (offset + 8 + 8) m
unfolding platdata_items platdata_addr platdata_size
platdata-Holds none rest start offset m (addr, (size, rest_held)) = (addr, size, rest_held)
platdata-Holds (some (from, end)) rest start offset m (addr, (size, rest_held)) =
    (addr, size, rest_held)

pub read_header-Holds :
    (b : Build) (start : ℕ) (m : Memory)
    → Holds (header_items b) start 0 m
    → read_header m start ≡ header_of b
unfolding header_items read_header header_of
read_header-Holds b start m
      (jump, (magic, (version, (reserved, (run, (size, (spin, (vect, (vect_size, rest))))))))) =
    let (data_addr, data_size, (load_at, (run_at, (fdt_at, (next_size, spare))))) =
      platdata-Holds b.platdata _ start 56 m rest in
    let here : start ≡ start + 0 = omega arith in
    λ i. record {
      jump_insn = (ap (load_bytes 4 m) here ∙ jump) i;
      magic = magic i;
      version = version i;
      reserved1 = reserved i;
      image_run_addr = run i;
      image_size = size i;
      image_spin_addr = spin i;
      image_nmivect_addr = vect i;
      image_nmivect_size = vect_size i;
      image_platdata_addr = data_addr i;
      image_platdata_size = data_size i;
      next_load_addr = load_at i;
      next_run_addr = run_at i;
      next_fdt_addr = fdt_at i;
      next_size = next_size i;
      reserved2 = words-nothing 19 start 104 m spare i;
    }

-- Where `_start` to `_zstage_header_reserved2` are assembled, with values that fit their words, the
-- structure in image_header.h reads the header that the build means: each field has the value that is
-- assembled for it, and the magic and the version are those that zstage_main asks for.
pub read_header-assemble :
    (b : Build) (start : ℕ) (m : Memory)
    → Fit (header_items b)
    → read_header (assemble (header_items b) start 0 m) start ≡ header_of b
read_header-assemble b start m fit =
    read_header-Holds b start (assemble (header_items b) start 0 m)
      (assemble-Holds (header_items b) start 0 m fit)

-- The blobs that are read of a table: up to the first that is empty.
abbrev pub blob_of : Payload → PayloadBlob
blob_of blob = record {
  src_addr = blob.start;
  dst_addr = blob.addr;
  size = blob.end - blob.start;
  reserved = 0;
}

pub blobs_of : List Payload → List PayloadBlob
blobs_of [] = record { src_addr = 0; dst_addr = 0; size = 0; reserved = 0 } ∷ []
blobs_of (blob ∷ blobs) =
    let rest = blobs_of blobs in
    if blob.end - blob.start == 0 then blob_of blob ∷ [] else blob_of blob ∷ rest

read_blobs-Holds :
    (blobs : List Payload) (fuel start offset : ℕ) (m : Memory)
    → Holds (table_items blobs) start offset m
    → length blobs < fuel
    → read_blobs fuel m (start + offset) ≡ some (blobs_of blobs)
unfolding table_items read_blobs blobs_of
read_blobs-Holds [] zero start offset m h enough = absurd (omega arith)
read_blobs-Holds (blob ∷ blobs) zero start offset m h enough = absurd (omega arith)
read_blobs-Holds [] (suc fuel) start offset m (src, (dst, (size, (spare, rest)))) enough =
    let at8 : start + offset + 8 ≡ start + (offset + 8) = omega arith in
    let at16 : start + offset + 16 ≡ start + (offset + 8 + 8) = omega arith in
    let at24 : start + offset + 24 ≡ start + (offset + 8 + 8 + 8) = omega arith in
    rw (at8, at16, at24, src, dst, size, spare) refl
read_blobs-Holds (blob ∷ blobs) (suc fuel) start offset m (src, (dst, (size, (spare, rest))))
      enough =
    let at8 : start + offset + 8 ≡ start + (offset + 8) = omega arith in
    let at16 : start + offset + 16 ≡ start + (offset + 8 + 8) = omega arith in
    let at24 : start + offset + 24 ≡ start + (offset + 8 + 8 + 8) = omega arith in
    let at32 : start + offset + 32 ≡ start + (offset + 8 + 8 + 8 + 8) = omega arith in
    let later = read_blobs-Holds blobs fuel start (offset + 8 + 8 + 8 + 8) m rest (omega arith) in
    elim (Bool-cases (blob.end - blob.start == 0)) [
      | inl empty ↦ rw (at8, at16, at24, src, dst, size, spare, empty) refl
      | inr full ↦
          rw (at16, at32, size, full, read_blobs, later)
            (rw (at8, at16, at24, src, dst, size, spare) refl)
    ]

-- Where the table of blobs is assembled for the payloads of the build, with values that fit their
-- words, and the fuel is more than the payloads, the structures in payload_blob.h read each of them,
-- up to the first that is empty; where there is none, up to the sentinel. So an empty payload hides
-- those behind it.
pub read_blobs-assemble :
    (blobs : List Payload) (fuel start : ℕ) (m : Memory)
    → Fit (table_items blobs)
    → length blobs < fuel
    → read_blobs fuel (assemble (table_items blobs) start 0 m) start ≡ some (blobs_of blobs)
read_blobs-assemble blobs fuel start m fit enough =
    let here : start + 0 ≡ start = omega arith in
    let there = assemble (table_items blobs) start 0 m in
    subst (λ (p : ℕ). read_blobs fuel there p ≡ some (blobs_of blobs)) here
      (read_blobs-Holds blobs fuel start 0 there (assemble-Holds (table_items blobs) start 0 m fit)
        enough)
