-- ===== src/Console/Spelled.antt =====
-- How a number is spelled, without the buffer of printi of firmware/console.c, and that the stores
-- into that buffer give this.
use mathlib.Core.List.{append-nil, append_assoc}
use native.Mathlib.Nat.{div-lt_iff_lt-mul, pow-suc, pow-zero, div-eq_of_lt, mod-eq_of_lt}
use zstage.Base.{
  ℕ, zero, suc, ◌+◌, ◌-◌, ◌/◌, ◌%◌, ◌^◌, ◌<◌, ◌≤◌, ◌≡◌, refl, ap, sym, ◌∙◌, Bool, true, false, ◌&&◌,
  some, List, [], ◌∷◌, ◌++◌, ◌==◌, ltb, leb, lt→ltb, if◌then◌else◌, length, length-append, arith,
  Bool-cases, inl, inr, codes,
}
use zstage.Console.{
  digits, store_front, store_digits, alternate_prefix, store_number, print_buf_len,
}
use zstage.Console.Digits.{IsBase, div_lt}

-- The digits of a base: 0 to 9, then the letters from `letbase` on.
unfoldable pub digit : (letbase t : ℕ) → ℕ
digit letbase t = if ltb t 10 then b'0' + t else letbase + (t - 10)

-- The last digit stands behind those of the quotient. A word has at most 32 digits in base 4.
unfoldable pub spelled : (rounds u b letbase : ℕ) → List ℕ
unfolding digit
spelled zero u b letbase = []
spelled (suc rounds) u b letbase =
    let front = spelled rounds (u / b) b letbase in
    if ltb u b then digit letbase u ∷ [] else front ++ (digit letbase (u % b) ∷ [])

-- `0x` or `0X` for hexadecimal, as the letters are, and `0` else.
unfoldable pub prefix_text : (alternate : Bool) (b letbase : ℕ) → List ℕ
prefix_text false b letbase = []
prefix_text true b letbase =
    if b == 16 && (letbase == b'a')
    then codes "0x"
    else if b == 16 && (letbase == b'A')
    then codes "0X"
    else codes "0"

pub length-spelled : (k u b letbase : ℕ) → length (spelled k u b letbase) ≤ k
unfolding spelled
length-spelled zero u b letbase = omega arith
length-spelled (suc k) u b letbase =
    let fewer = length-spelled k (u / b) b letbase in
    ground (arith, length-append (spelled k (u / b) b letbase) (digit letbase (u % b) ∷ []))

length-prefix_text :
    (alternate : Bool) (b letbase : ℕ) → length (prefix_text alternate b letbase) ≤ 2
unfolding prefix_text
length-prefix_text false b letbase = omega arith
length-prefix_text true b letbase = ground arith

digits_none_left : (slots b letbase : ℕ) (out : List ℕ) → digits slots 0 b letbase out ≡ some out
unfolding digits
digits_none_left zero b letbase out = refl
digits_none_left (suc slots) b letbase out = refl

stored-digit :
    (t b letbase : ℕ)
    → IsBase b letbase
    → t < b
    → ((if leb 10 t then t + letbase - b'0' - 10 else t) + b'0') % 2 ^ 8 ≡ digit letbase t
unfolding digit
stored-digit t b letbase base h = ground arith

digits-spelled :
    (k slots u b letbase : ℕ) (out : List ℕ)
    → IsBase b letbase
    → 0 < u
    → u < 4 ^ k
    → k ≤ slots
    → digits slots u b letbase out ≡ some (spelled k u b letbase ++ out)
unfolding digits spelled
digits-spelled zero slots u b letbase out base more fits room = absurd (omega arith)
digits-spelled (suc k) zero u b letbase out base more fits room = absurd (omega arith)
digits-spelled (suc k) (suc slots) u b letbase out base more fits room =
    let some_left : (u == 0) ≡ false = ground arith in
    let last = stored-digit (u % b) b letbase base (grind (arith, base.low)) in
    rw (some_left, last)
      (elim (Bool-cases (ltb u b)) [
        | inl single ↦
            let small : u < b = ground arith in
            let none_left : u / b ≡ 0 = div-eq_of_lt small in
            let itself : u % b ≡ u = mod-eq_of_lt small in
            rw (single, none_left, itself)
              (digits_none_left slots b letbase (digit letbase u ∷ out))
        | inr several ↦
            let more' : 0 < u / b = grind (arith, base.low) in
            rw several (
              digits-spelled k slots (u / b) b letbase (digit letbase (u % b) ∷ out) base more'
                (div_lt u b (4 ^ k) base.low (omega (arith, pow-suc 4 k))) (omega arith)
              ∙ ap some (
                  sym
                    (append_assoc (spelled k (u / b) b letbase) (digit letbase (u % b) ∷ []) out)))
      ])

spelled-zero : (k b letbase : ℕ) → IsBase b letbase → spelled (suc k) 0 b letbase ≡ b'0' ∷ []
unfolding spelled digit
spelled-zero k b letbase base = rw (lt→ltb 0 b (omega (arith, base.low))) refl

-- The stores of `printi` up to the sign: they stay in the buffer, and leave room for one more.
store_front-room : (c : ℕ) (s : List ℕ) → length s < 63 → store_front c s ≡ some (c ∷ s)
unfolding store_front
store_front-room c s h = rw (lt→ltb (length s + 1) print_buf_len (omega arith)) refl

store_digits-spelled :
    (u b letbase : ℕ)
    → IsBase b letbase
    → u < 2 ^ 64
    → store_digits u b letbase ≡ some (spelled 32 u b letbase)
unfolding store_digits
store_digits-spelled u b letbase base word =
    let stores =
      λ (none_left : Bool). if none_left then store_front b'0' [] else digits 63 u b letbase [] in
    elim (Bool-cases (u == 0)) [
      | inl z ↦
          let u_zero : u ≡ 0 = ground arith in
          ap (λ none_left. stores none_left) z
          ∙ store_front-room b'0' [] (omega arith)
          ∙ ap some (sym (spelled-zero 31 b letbase base))
          ∙ ap (λ n. some (spelled 32 n b letbase)) (sym u_zero)
      | inr nz ↦
          ap (λ none_left. stores none_left) nz
          ∙ digits-spelled 32 63 u b letbase [] base (ground arith) (omega arith) (omega arith)
          ∙ ap some (append-nil (spelled 32 u b letbase))
    ]

alternate_prefix-prefix_text :
    (alternate : Bool) (b letbase : ℕ) (s : List ℕ)
    → length s ≤ 32
    → alternate_prefix alternate b letbase s ≡ some (prefix_text alternate b letbase ++ s)
unfolding alternate_prefix prefix_text
alternate_prefix-prefix_text false b letbase s short = refl
alternate_prefix-prefix_text true b letbase s short =
    let x = store_front-room b'x' s (omega arith) in
    let x' = store_front-room b'X' s (omega arith) in
    let z = store_front-room b'0' s (omega arith) in
    let zx = store_front-room b'0' (b'x' ∷ s) (omega arith) in
    let zx' = store_front-room b'0' (b'X' ∷ s) (omega arith) in ground arith

-- Where the stores of the digits and of the prefix end.
pub store_number-spelled :
    (alternate : Bool) (u b letbase : ℕ)
    → IsBase b letbase
    → u < 2 ^ 64
    → store_number alternate u b letbase
      ≡ some (prefix_text alternate b letbase ++ spelled 32 u b letbase)
unfolding store_number
store_number-spelled alternate u b letbase base word =
    rw (store_number, store_digits-spelled u b letbase base word)
      (alternate_prefix-prefix_text alternate b letbase _ (length-spelled 32 u b letbase))

pub store_sign-room :
    (alternate : Bool) (u b letbase : ℕ)
    → store_front b'-' (prefix_text alternate b letbase ++ spelled 32 u b letbase)
      ≡ some (b'-' ∷ (prefix_text alternate b letbase ++ spelled 32 u b letbase))
unfolding prefix_text
store_sign-room alternate u b letbase =
    let short = length-spelled 32 u b letbase in
    let all = length-append (prefix_text alternate b letbase) (spelled 32 u b letbase) in
    store_front-room b'-' _ (omega (arith, short, all, length-prefix_text alternate b letbase))

-- In base `b`, a number below `b ^ (n + 1)` has at most `n + 1` digits.
pub length-spelled_lt :
    (k n u b letbase : ℕ) → 4 ≤ b → u < b ^ suc n → length (spelled k u b letbase) ≤ suc n
unfolding spelled
length-spelled_lt zero n u b letbase low h = omega arith
length-spelled_lt (suc k) zero u b letbase low h =
    let base : b ^ 1 ≡ b = pow-suc b 0 ∙ rw (pow-zero b) (omega arith) in
    let small : ltb u b ≡ true = lt→ltb u b (omega (arith, base, h)) in rw small (omega arith)
length-spelled_lt (suc k) (suc n) u b letbase low h = elim (Bool-cases (ltb u b)) [
  | inl single ↦ rw single (omega arith)
  | inr several ↦
      let fewer : u / b < b ^ suc n =
        (div-lt_iff_lt-mul (omega arith)).1 (omega (arith, pow-suc b (suc n))) in
      let front : length (spelled k (u / b) b letbase) ≤ suc n =
        length-spelled_lt k n (u / b) b letbase low fewer in
      rw (several, length-append (spelled k (u / b) b letbase) (digit letbase (u % b) ∷ []))
        (omega arith)
]
