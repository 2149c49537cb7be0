-- ===== src/Console/Frame.antt =====
-- print of firmware/console.c writes into its own buffer of 128 bytes only: printc, prints and
-- printi with that buffer as their sink.
use zstage.Base.{
  ℕ, zero, suc, ◌+◌, ◌-◌, ◌%◌, ◌^◌, ◌≤◌, ◌<◌, ◌≡◌, ◌⊎◌, inl, inr, refl, ◌∙◌, Bool, true, false,
  ◌&&◌, ◌==◌, Option, none, some, List, [], ◌∷◌, arith, ltb, if◌then◌else◌, Option-cases,
  Bool-cases,
}
use zstage.Memory.{Memory, store}
use zstage.Machine.{Machine, Run, Cmd, Stop, ok, stop, undefined, pure, halt, ◌>>=◌, and_then}
use zstage.Machine.Keeps.{Keeps}
use zstage.Console.{
  Devices, Flags, Sink, field_width, pad_char, printc, printc_times, printc_each, prints,
  store_front, store_number, print_signed, printi, is_negative64,
}

-- `m'` is `m` outside of the 128 bytes at `tbuf`.
abbrev pub Outside : (tbuf : ℕ) → Memory → Memory → Type 0
Outside tbuf m m' = (q : ℕ) → (q < tbuf) ⊎ (tbuf + 128 ≤ q) → m' q ≡ m q

-- However the run ends, what it returns has `P` and the memory is as it was outside of `tbuf`.
abbrev pub Ends : (tbuf : ℕ) {A : Type 0} (P : A → Type 0) → Memory → Run A → Type 0
Ends tbuf P m (ok a m') = P a × Outside tbuf m m'.memory
Ends tbuf P m (stop s m') = Outside tbuf m m'.memory

pub record Stays (tbuf : ℕ) {A : Type 0} (P : A → Type 0) (c : Cmd A) : Type 0 where
  pub ends : (m : Machine) → Ends tbuf P m.memory (c m)

-- The sink is in the buffer, and what is left of the buffer is `*out_len` at least.
pub record HasRoom (tbuf : ℕ) (sink : Sink) : Type 0 where
  pub out : ℕ
  pub out_len : ℕ
  pub is_sink : sink ≡ record { out = some out; out_len = some out_len }
  pub low : tbuf ≤ out
  pub high : out + out_len ≤ tbuf + 128

abbrev pub HasRoomBeside : (tbuf : ℕ) → Sink × ℕ → Type 0
HasRoomBeside tbuf (sink, pc) = HasRoom tbuf sink

module _ (tbuf : ℕ) where
  pub pure-Stays : {A : Type 0} (P : A → Type 0) (a : A) → P a → Stays tbuf P (pure a)
  pure-Stays P a h = record { ends = λ m. (h, λ q l. refl) }

  pub halt-Stays : {A : Type 0} (P : A → Type 0) (s : Stop) → Stays tbuf P (halt s)
  halt-Stays P s = record { ends = λ m q l. refl }

  beyond :
      {B : Type 0} (Q : B → Type 0) (m m1 : Memory) (r : Run B)
      → Outside tbuf m m1
      → Ends tbuf Q m1 r
      → Ends tbuf Q m r
  beyond Q m m1 (ok b m2) first (q, later) = (q, λ a l. later a l ∙ first a l)
  beyond Q m m1 (stop s m2) first later = λ a l. later a l ∙ first a l

  after :
      {A B : Type 0} (P : A → Type 0) (Q : B → Type 0) (m : Memory) (r : Run A) (k : A → Cmd B)
      → Ends tbuf P m r
      → ((a : A) → P a → Stays tbuf Q (k a))
      → Ends tbuf Q m (and_then r k)
  after P Q m (stop s m') k h hk = h
  after P Q m (ok a m') k (p, same) hk = beyond Q m m'.memory (k a m') same ((hk a p).ends m')

  pub bind-Stays :
      {A B : Type 0} (P : A → Type 0) (Q : B → Type 0) (c : Cmd A) (k : A → Cmd B)
      → Stays tbuf P c
      → ((a : A) → P a → Stays tbuf Q (k a))
      → Stays tbuf Q (c >>= k)
  bind-Stays P Q c k h hk = record { ends = λ m. after P Q m.memory (c m) k (h.ends m) hk }

  pub if-Stays :
      {A : Type 0} (P : A → Type 0) (b : Bool) (c d : Cmd A)
      → Stays tbuf P c
      → Stays tbuf P d
      → Stays tbuf P (if b then c else d)
  if-Stays P true c d h k = h
  if-Stays P false c d h k = k

  pub elim-Stays :
      {A B : Type 0} (P : B → Type 0) (o : Option A) (c : Cmd B) (k : A → Cmd B)
      → Stays tbuf P c
      → ((a : A) → Stays tbuf P (k a))
      → Stays tbuf P (elim o [ none ↦ c | some a ↦ k a ])
  elim-Stays P none c k h hk = h
  elim-Stays P (some a) c k h hk = hk a

  kept_ends :
      {A : Type 0} (P : A → Type 0) (c : Cmd A)
      → Keeps c
      → ((a : A) → P a)
      → (m : Machine) (r : Run A) → c m ≡ r
      → Ends tbuf P m.memory r
  kept_ends P c h p m (ok a m') e = (p a, λ q l. rw (h.same a m m' e).0 refl)
  kept_ends P c h p m (stop s m') e = λ q l. rw (h.kept s m m' e).0 refl

  pub Keeps-Stays :
      {A : Type 0} (P : A → Type 0) (c : Cmd A) → Keeps c → ((a : A) → P a) → Stays tbuf P c
  Keeps-Stays P c h p = record { ends = λ m. kept_ends P c h p m (c m) refl }

module _ (dev : Devices) (tbuf : ℕ) where
  two_stores :
      (m : Memory) (p v : ℕ)
      → tbuf ≤ p
      → p + 2 ≤ tbuf + 128
      → Outside tbuf m (store (store m p v) (p + 1) 0)
  unfolding store
  two_stores m p v low high = λ q apart. ground arith

  buffered-Stays :
      (out out_len ch : ℕ)
      → tbuf ≤ out
      → out + out_len ≤ tbuf + 128
      → Stays tbuf
          (HasRoom tbuf)
          (printc dev (record { out = some out; out_len = some out_len }) ch)
  unfolding printc
  buffered-Stays out out_len ch low high = elim (Bool-cases (ltb 1 out_len)) [
    | inl more ↦ rw more (record {
      ends = λ m. (
        record {
          out = out + 1;
          out_len = out_len - 1;
          is_sink = refl;
          low = omega arith;
          high = ground arith;
        },
        two_stores m.memory out ch low (ground arith),
      );
    })
    | inr full ↦ rw full (
        pure-Stays tbuf (HasRoom tbuf) (record { out = some out; out_len = some (out_len - 1) })
          (record {
            out = out;
            out_len = out_len - 1;
            is_sink = refl;
            low = low;
            high = omega arith;
          }))
  ]

  pub printc-Stays :
      (sink : Sink) (ch : ℕ) → HasRoom tbuf sink → Stays tbuf (HasRoom tbuf) (printc dev sink ch)
  printc-Stays sink ch room =
      rw room.is_sink (buffered-Stays room.out room.out_len ch room.low room.high)

  printc_times-Stays :
      (n ch : ℕ) (sink : Sink) (pc : ℕ)
      → HasRoom tbuf sink
      → Stays tbuf (HasRoomBeside tbuf) (printc_times dev n ch sink pc)
  unfolding printc_times
  printc_times-Stays zero ch sink pc room = pure-Stays tbuf (HasRoomBeside tbuf) (sink, pc) room
  printc_times-Stays (suc n) ch sink pc room =
      bind-Stays tbuf (HasRoom tbuf) (HasRoomBeside tbuf) (printc dev sink ch) _
        (printc-Stays sink ch room) (λ sink' room'. printc_times-Stays n ch sink' (pc + 1) room')

  printc_each-Stays :
      (string : List ℕ) (sink : Sink) (pc : ℕ)
      → HasRoom tbuf sink
      → Stays tbuf (HasRoomBeside tbuf) (printc_each dev string sink pc)
  unfolding printc_each
  printc_each-Stays [] sink pc room = pure-Stays tbuf (HasRoomBeside tbuf) (sink, pc) room
  printc_each-Stays (c ∷ string) sink pc room =
      bind-Stays tbuf (HasRoom tbuf) (HasRoomBeside tbuf) (printc dev sink c) _
        (printc-Stays sink c room) (λ sink' room'. printc_each-Stays string sink' (pc + 1) room')

  pub prints-Stays :
      (sink : Sink) (string : List ℕ) (width : ℕ) (flags : Flags)
      → HasRoom tbuf sink
      → Stays tbuf (HasRoomBeside tbuf) (prints dev sink string width flags)
  unfolding prints
  prints-Stays sink string width flags room =
      let wide = field_width string width in
      let padchar = pad_char width flags in
      let left = if flags.right then 0 else wide in
      let right = if flags.right then wide else 0 in
      bind-Stays tbuf (HasRoomBeside tbuf) (HasRoomBeside tbuf)
        (printc_times dev left padchar sink 0) _ (printc_times-Stays left padchar sink 0 room)
        (λ (sink1, pc1) room1.
          bind-Stays tbuf (HasRoomBeside tbuf) (HasRoomBeside tbuf)
            (printc_each dev string sink1 pc1)
            (λ (sink2, pc2). printc_times dev right padchar sink2 pc2)
            (printc_each-Stays string sink1 pc1 room1)
            (λ (sink2, pc2) room2. printc_times-Stays right padchar sink2 pc2 room2))

  print_signed-Stays :
      (sink : Sink) (neg : Bool) (s : List ℕ) (width : ℕ) (flags : Flags)
      → HasRoom tbuf sink
      → Stays tbuf (HasRoomBeside tbuf) (print_signed dev sink neg s width flags)
  unfolding print_signed
  print_signed-Stays sink neg s width flags room =
      if-Stays tbuf (HasRoomBeside tbuf) (neg && ltb 0 width && flags.zero) _ _
        (bind-Stays tbuf (HasRoom tbuf) (HasRoomBeside tbuf) (printc dev sink b'-') _
          (printc-Stays sink b'-' room)
          (λ sink1 room1.
            bind-Stays tbuf (HasRoomBeside tbuf) (HasRoomBeside tbuf)
              (prints dev sink1 s (width - 1) flags) _
              (prints-Stays sink1 s (width - 1) flags room1)
              (λ (sink2, pc) room2. pure-Stays tbuf (HasRoomBeside tbuf) (sink2, 1 + pc) room2)))
        (elim (Option-cases (if neg then store_front b'-' s else some s)) [
          | inl none_e ↦ rw none_e (halt-Stays tbuf (HasRoomBeside tbuf) undefined)
          | inr (s', e) ↦ rw e (prints-Stays sink s' width flags room)
        ])

  -- `printi`, also where a number does not fit `print_buf` in some base.
  pub printi-Stays :
      (sink : Sink) (i b : ℕ) (sg : Bool) (width : ℕ) (flags : Flags) (letbase : ℕ)
      → HasRoom tbuf sink
      → Stays tbuf (HasRoomBeside tbuf) (printi dev sink i b sg width flags letbase)
  unfolding printi
  printi-Stays sink i b sg width flags letbase room =
      let neg = sg && (b == 10) && is_negative64 i in
      let u = if neg then (2 ^ 64 - i) % 2 ^ 64 else i in
      elim (Option-cases (store_number flags.alternate u b letbase)) [
        | inl none_e ↦ rw (printi, none_e) (halt-Stays tbuf (HasRoomBeside tbuf) undefined)
        | inr (s, e) ↦ rw (printi, e) (print_signed-Stays sink neg s width flags room)
      ]
