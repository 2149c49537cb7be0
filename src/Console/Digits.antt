-- ===== src/Console/Digits.antt =====
-- The digits that printi of firmware/console.c writes: their value and their number.
use native.Mathlib.Nat.{div-add-mod, div-add-mod', div-lt_iff_lt-mul, pow-suc, pow-zero}
use zstage.Base.{
  ℕ, zero, suc, ◌+◌, ◌-◌, ◌*◌, ◌/◌, ◌%◌, ◌^◌, ◌<◌, ◌≤◌, ◌≡◌, ◌⊎◌, ap, ◌∙◌, some, List, [], ◌∷◌,
  ◌==◌, leb, if◌then◌else◌, length, arith, Bool-cases, inl, inr,
}
use zstage.Console.{digits}

-- The digit that a character stands for, where `letbase` stands for ten.
abbrev pub digit_value : (letbase c : ℕ) → ℕ
digit_value letbase c = if leb c b'9' then c - b'0' else c + 10 - letbase

-- The number that characters stand for behind those that stand for `acc`.
unfoldable pub value : (b letbase acc : ℕ) → List ℕ → ℕ
value b letbase acc [] = acc
value b letbase acc (c ∷ cs) = value b letbase (acc * b + digit_value letbase c) cs

-- The bases and letters for which `printi` has digits.
pub record IsBase (b letbase : ℕ) : Type 0 where
  pub low : 4 ≤ b
  pub high : b ≤ 36
  pub letters : (b ≤ 10) ⊎ ((b'A' ≤ letbase) × (letbase ≤ b'a'))

abbrev digit_char : (t letbase : ℕ) → ℕ
digit_char t letbase = ((if leb 10 t then t + letbase - b'0' - 10 else t) + b'0') % 2 ^ 8

digit_value-digit_char :
    (t b letbase : ℕ) → IsBase b letbase → t < b → digit_value letbase (digit_char t letbase) ≡ t
digit_value-digit_char t b letbase base h = ground arith

pub div_lt : (u b k : ℕ) → 4 ≤ b → u < 4 * k → u / b < k
div_lt u b k h l = grind (arith, div-add-mod)

-- With slots enough the digits fit, and stand for `u` in front of what stood there.
pub digits-value :
    (slots u b letbase : ℕ) (out : List ℕ)
    → IsBase b letbase
    → u < 4 ^ slots
    → (s : List ℕ) × (digits slots u b letbase out ≡ some s)
      × (value b letbase 0 s ≡ value b letbase u out)
unfolding digits value
digits-value zero u b letbase out base l =
    let u_zero : u ≡ 0 = omega arith in (out, ground arith, rw u_zero)
digits-value (suc slots) u b letbase out base l = elim (Bool-cases (u == 0)) [
  | inl done ↦ let u_zero : u ≡ 0 = ground arith in (out, rw done, rw u_zero)
  | inr more ↦
      let c = digit_char (u % b) letbase in
      let (s, e, v) =
        digits-value slots (u / b) b letbase (c ∷ out) base
          (div_lt u b (4 ^ slots) base.low (omega (arith, pow-suc 4 slots))) in
      (
        s,
        rw more e,
        v
            ∙ ap (λ acc. value b letbase acc out)
                (ap (λ d. u / b * b + d)
                    (digit_value-digit_char (u % b) b letbase base (grind (arith, base.low)))
                  ∙ div-add-mod' u b),
      )
]

pub digits-length :
    (slots n u b letbase : ℕ) (out s : List ℕ)
    → 4 ≤ b
    → u < b ^ n
    → digits slots u b letbase out ≡ some s
    → length s ≤ n + length out
unfolding digits
digits-length zero n u b letbase out s base l e = ground arith
digits-length (suc slots) zero u b letbase out s base l e =
    let u_zero : u ≡ 0 = omega (arith, pow-zero b) in ground arith
digits-length (suc slots) (suc n) u b letbase out s base l e = elim (Bool-cases (u == 0)) [
  | inl done ↦ let same : some out ≡ some s = rw done at e in ground arith
  | inr more ↦
      let fewer : u / b < b ^ n =
        (div-lt_iff_lt-mul (omega arith)).1 (omega (arith, pow-suc b n)) in
      let c = digit_char (u % b) letbase in
      let later : length s ≤ n + length (c ∷ out) =
        digits-length slots n (u / b) b letbase (c ∷ out) s base fewer (rw more at e) in
      omega arith
]
