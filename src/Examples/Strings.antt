-- ===== src/Examples/Strings.antt =====
-- firmware/string.c at the strings of Examples.antt.
use zstage.Base.{ℕ, ◌≡◌, some, arith, codes, take}
use zstage.Memory.{Memory, IsText, IsBytes}
use zstage.CString.{strncmp, strnlen, strcpy, strncpy, strchr, memcpy, memmove}
use zstage.CString.Length.{strnlen-min}
use zstage.CString.Compare.{strncmp-compare_text, compare_text}
use zstage.CString.Search.{strchr-index_of}
use zstage.CString.Copy.{moved, memcpy-moved, memmove-moved, strcpy-moved, strncpy-moved}
use zstage.Examples.{texts}

abca-IsText : IsText texts 10 (codes "abca")
abca-IsText = ground arith

abd-IsText : IsText texts 20 (codes "abd")
abd-IsText = ground arith

pub texts-IsBytes : IsBytes texts
texts-IsBytes = λ p. ground arith

strnlen-min_example : strnlen texts 10 4 ≡ 2
strnlen-min_example = strnlen-min texts 10 4 (codes "abca") abca-IsText

strncmp-compare_text_example :
    strncmp texts 10 20 2 ≡ compare_text (take 2 (codes "abca")) (take 2 (codes "abd"))
strncmp-compare_text_example =
    strncmp-compare_text 2 texts 10 20 (codes "abca") (codes "abd") abca-IsText abd-IsText

strchr-index_of_example : strchr 9 texts 10 b'c' ≡ some (some 12)
strchr-index_of_example = strchr-index_of 9 texts 10 b'c' (codes "abca") abca-IsText (omega arith)

memcpy-moved_example : memcpy texts 9 10 4 11 ≡ b'c'
memcpy-moved_example = memcpy-moved 4 texts 9 10 11 texts-IsBytes (omega arith)

memmove-moved_example : memmove texts 11 10 4 14 ≡ b'a'
memmove-moved_example = memmove-moved 4 texts 11 10 14 texts-IsBytes

strcpy-moved_example :
    (m' : Memory) × (strcpy 9 texts 30 10 ≡ some m') × ((q : ℕ) → m' q ≡ moved texts 30 10 4 q)
strcpy-moved_example =
    strcpy-moved 9 texts 30 10 (codes "abca") texts-IsBytes abca-IsText (omega arith) (omega arith)

strncpy-moved_example : strncpy texts 30 10 2 31 ≡ b'b'
strncpy-moved_example =
    strncpy-moved 2 texts 30 10 31 (codes "abca") texts-IsBytes abca-IsText (omega arith)
