-- ===== src/Boot/Plan.antt =====
-- Where firmware/main.c puts what it copies, and what its copies ask for.
use zstage.Base.{
  ℕ, ◌+◌, ◌^◌, ◌<◌, ◌≤◌, ◌≡◌, ◌⊎◌, inl, inr, List, [], ◌∷◌, ◌==◌, if◌then◌else◌, Bool-cases,
}
use zstage.Memory.{Memory, IsBytes}
use zstage.CString.Copy.{moved}
use zstage.Boot.{Platform, ImageHeader, PayloadBlob}
use zstage.Boot.Effect.{IsApart, moved-IsBytes}

-- The string that the address of a literal points at.
abbrev pub IsLiteral : Platform → List ℕ → Type 0
IsLiteral p s = (p.string_at (p.literal s) ≡ s) × (p.literal s < 2 ^ 64)

-- A copy that takes nothing from print's buffer and does not begin inside its source.
pub record CanCopy (tbuf dest src count : ℕ) : Type 0 where
  pub apart : IsApart tbuf src count
  pub order : (dest ≤ src) ⊎ (src + count ≤ dest)
  pub dest_word : dest < 2 ^ 64
  pub src_word : src < 2 ^ 64
  pub count_word : count < 2 ^ 64

abbrev pub CanCopyAll : (tbuf : ℕ) → List PayloadBlob → Type 0
CanCopyAll tbuf [] = Unit {0}
CanCopyAll tbuf (blob ∷ blobs) =
    CanCopy tbuf blob.dst_addr blob.src_addr blob.size × CanCopyAll tbuf blobs

-- The memory with the blobs in their places, up to the one of size 0.
unfoldable pub with_blobs : Memory → List PayloadBlob → Memory
with_blobs m [] = m
with_blobs m (blob ∷ blobs) =
    let rest = with_blobs (moved m blob.dst_addr blob.src_addr blob.size) blobs in
    if blob.size == 0 then m else rest

abbrev pub with_next_stage : ImageHeader → Memory → Memory
with_next_stage hdr m =
    if hdr.next_load_addr == hdr.next_run_addr
    then m
    else moved m hdr.next_run_addr hdr.next_load_addr hdr.next_size

abbrev pub with_fdt : Platform → (boot_arg1 : ℕ) → ImageHeader → Memory → Memory
with_fdt p boot_arg1 hdr m = moved m hdr.next_fdt_addr boot_arg1 (p.libfdt m boot_arg1).totalsize

-- The memory with all in its place.
abbrev pub booted : Platform → (boot_arg1 : ℕ) → ImageHeader → List PayloadBlob → Memory → Memory
booted p boot_arg1 hdr blobs m = with_next_stage hdr (with_fdt p boot_arg1 hdr (with_blobs m blobs))

pub with_blobs-IsBytes :
    (m : Memory) (blobs : List PayloadBlob) → IsBytes m → IsBytes (with_blobs m blobs)
unfolding with_blobs
with_blobs-IsBytes m [] b = b
with_blobs-IsBytes m (blob ∷ blobs) b = elim (Bool-cases (blob.size == 0)) [
  | inl last ↦ rw last b
  | inr more ↦ rw more (
      with_blobs-IsBytes (moved m blob.dst_addr blob.src_addr blob.size) blobs
        (moved-IsBytes m blob.dst_addr blob.src_addr blob.size b))
]
