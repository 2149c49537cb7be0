-- ===== src/Console/Number.antt =====
-- What printi of firmware/console.c prints for a number: its numeral in its field.
use zstage.Base.{
  ℕ, suc, ◌-◌, ◌%◌, ◌^◌, ◌<◌, ◌≤◌, ◌≡◌, refl, ◌∙◌, Bool, ◌&&◌, none, some, List, [], ◌∷◌, ◌++◌,
  ◌==◌, ltb, if◌then◌else◌, length, arith, Bool-cases, inl, inr,
}
use zstage.Machine.{Machine}
use zstage.Machine.Laws.{and_then_cong}
use zstage.Console.{
  Devices, Flags, Sink, digits, print_buf_len, is_negative64, store_front, print_signed, printc,
  printc_each, printi,
}
use zstage.Console.Digits.{IsBase, value, digits-value, digits-length}
use zstage.Console.Spelled.{spelled, prefix_text, store_number-spelled, store_sign-room}
use zstage.Console.Emit.{padded, prints-padded, printc_each-count}

-- The characters that stand for `u`; none only where they would not fit `print_buf`.
unfoldable pub numeral : (u b letbase : ℕ) → List ℕ
numeral u b letbase = elim (digits (print_buf_len - 1) u b letbase []) [
  | none ↦ []
  | some s ↦ if u == 0 then b'0' ∷ [] else s
]

-- `i` as `sg` and the base have it read: whether there is a sign, and the number behind it.
abbrev pub is_signed : (i b : ℕ) → Bool → Bool
is_signed i b sg = sg && (b == 10) && is_negative64 i

abbrev pub magnitude : (i b : ℕ) → Bool → ℕ
magnitude i b sg = if is_signed i b sg then (2 ^ 64 - i) % 2 ^ 64 else i

-- The sign stands in front of the padding where that is of zeros.
unfoldable pub signed_text : (neg : Bool) (s : List ℕ) (width : ℕ) → Flags → List ℕ
signed_text neg s width flags =
    if neg && ltb 0 width && flags.zero
    then b'-' ∷ padded s (width - 1) flags
    else padded (if neg then b'-' ∷ s else s) width flags

unfoldable pub number_text : (i b : ℕ) (sg : Bool) (width : ℕ) → Flags → (letbase : ℕ) → List ℕ
number_text i b sg width flags letbase =
    signed_text (is_signed i b sg)
      (prefix_text flags.alternate b letbase ++ spelled 32 (magnitude i b sg) b letbase) width flags

digits_of_word :
    (u b letbase : ℕ)
    → IsBase b letbase
    → u < 2 ^ 64
    → (s : List ℕ) × (digits (print_buf_len - 1) u b letbase [] ≡ some s)
      × (value b letbase 0 s ≡ u)
digits_of_word u b letbase base l =
    let (s, e, v) = digits-value (print_buf_len - 1) u b letbase [] base (omega arith) in
    (s, e, v ∙ unfold value in refl)

-- A numeral in a base that `printi` has, of a number of 64 bits, stands for that number.
pub numeral-value :
    (u b letbase : ℕ) → IsBase b letbase → u < 2 ^ 64 → value b letbase 0 (numeral u b letbase) ≡ u
unfolding numeral
numeral-value u b letbase base l =
    let (s, e, v) = digits_of_word u b letbase base l in
    rw (numeral, e)
      (elim (Bool-cases (u == 0)) [
        | inl z ↦ rw z (unfold value in ground arith)
        | inr nz ↦ rw nz v
      ])

-- In a base that `printi` has, the numeral of a 64-bit number below `b ^ (n + 1)` has at most
-- `n + 1` characters.
pub length-numeral :
    (n u b letbase : ℕ)
    → IsBase b letbase
    → u < 2 ^ 64
    → u < b ^ suc n
    → length (numeral u b letbase) ≤ suc n
unfolding numeral
length-numeral n u b letbase base l h =
    let (s, e, v) = digits_of_word u b letbase base l in
    let short = digits-length (print_buf_len - 1) (suc n) u b letbase [] s base.low h e in
    rw (length, numeral, e) (ground arith)

print_signed-signed_text :
    (dev : Devices) (sink : Sink) (neg : Bool) (s : List ℕ) (width : ℕ) (flags : Flags)
    (m : Machine)
    → store_front b'-' s ≡ some (b'-' ∷ s)
    → print_signed dev sink neg s width flags m
      ≡ printc_each dev (signed_text neg s width flags) sink 0 m
unfolding print_signed signed_text printc_each
print_signed-signed_text dev sink neg s width flags m room =
    elim (Bool-cases (neg && ltb 0 width && flags.zero)) [
      | inl z ↦ rw z (
          and_then_cong (printc dev sink b'-' m) _ _ (λ sink' m'.
            rw (prints-padded dev s (width - 1) flags sink' m')
              (printc_each-count dev (padded s (width - 1) flags) sink' 1 0 m')))
      | inr nz ↦ elim (Bool-cases neg) [
        | inl negative ↦ rw (nz, negative, room) (prints-padded dev (b'-' ∷ s) width flags sink m)
        | inr plain ↦ rw (nz, plain) (prints-padded dev s width flags sink m)
      ]
    ]

-- In a base that `printi` has, and for a value of 64 bits, `printi` prints the number's text
-- character by character, counting from 0: the digits of the number's size in that base, behind
-- `0x`, `0X` or `0` in the alternate form, with a sign where the number is signed, decimal and
-- negative, padded to the width. Each of the stores, of the digits, the prefix and the sign, stays in
-- `print_buf`.
pub printi-number_text :
    (dev : Devices) (sink : Sink) (i b : ℕ) (sg : Bool) (width : ℕ) (flags : Flags) (letbase : ℕ)
    (m : Machine)
    → IsBase b letbase
    → i < 2 ^ 64
    → printi dev sink i b sg width flags letbase m
      ≡ printc_each dev (number_text i b sg width flags letbase) sink 0 m
printi-number_text dev sink i b sg width flags letbase m base l =
    let u = magnitude i b sg in
    let stored = store_number-spelled flags.alternate u b letbase base (ground arith) in
    unfold printi number_text in
    rw (printi, stored)
      (print_signed-signed_text dev sink (is_signed i b sg) _ width flags m
        (store_sign-room flags.alternate u b letbase))
