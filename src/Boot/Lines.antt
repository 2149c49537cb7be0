-- ===== src/Boot/Lines.antt =====
-- The lines that firmware/main.c prints: what each stands for, and that each fits print's buffer.
use zstage.Base.{
  ℕ, ◌^◌, ◌<◌, ◌≤◌, ◌≡◌, refl, false, some, List, [], ◌∷◌, ◌++◌, ◌==◌, if◌then◌else◌, length,
  length-append, arith, codes,
}
use zstage.Console.{Flags}
use zstage.Console.Spelled.{digit, spelled, prefix_text, length-spelled_lt}
use zstage.Console.Emit.{padded, length-padded}
use zstage.Console.Number.{number_text, signed_text}
use zstage.Format.{round}
use zstage.Format.Progress.{AreWords}
use zstage.Format.Print.Render.{render, render_loop, conversion_text}

-- A format with arguments stands for a text of 1 to 127 characters.
pub record IsLine (string_at : ℕ → List ℕ) (format args : List ℕ) : Type 0 where
  pub text : List ℕ
  pub renders : render string_at format args ≡ some text
  pub some_char : 0 < length text
  pub short : length text < 128
  pub words : AreWords args

abbrev no_flags : Flags
no_flags = record { right = false; zero = false; alternate = false }

abbrev pub field : List ℕ → List ℕ
field s = padded s 0 no_flags

abbrev pub unsigned : (b : ℕ) (a : ℕ) → List ℕ
unsigned b a = number_text a b false 0 no_flags b'a'

length-field : (s : List ℕ) → length (field s) ≡ length s
length-field s = omega (arith, length-padded s 0 no_flags)

length-unsigned : (b a : ℕ) → length (unsigned b a) ≡ length (spelled 32 a b b'a')
unfolding number_text signed_text prefix_text
length-unsigned b a = length-field (spelled 32 a b b'a')

length-hex : (a : ℕ) → a < 2 ^ 64 → length (unsigned 16 a) ≤ 16
length-hex a h =
    omega (arith, length-unsigned 16 a, length-spelled_lt 32 15 a 16 b'a' (omega arith) h)

length-decimal : (a : ℕ) → a < 2 ^ 64 → length (unsigned 10 a) ≤ 20
length-decimal a h =
    omega
      (arith, length-unsigned 10 a, length-spelled_lt 32 19 a 10 b'a' (omega arith) (omega arith))

module _ (string_at : ℕ → List ℕ) where
  -- What `%s` prints for the address `a`.
  abbrev shown : ℕ → List ℕ
  shown a = if a == 0 then codes "(null)" else string_at a

  length-shown : (a : ℕ) → length (string_at a) ≤ 12 → length (field (shown a)) ≤ 12
  length-shown a h = ground (arith, length-field (shown a))

  pub version-IsLine : IsLine string_at (codes "\nVentana zStage v%d.%d\n") (0 ∷ 1 ∷ [])
  unfolding render render_loop conversion_text round padded number_text signed_text spelled digit
      prefix_text
  version-IsLine = record {
    text = codes "\nVentana zStage v0.1\n";
    renders = refl;
    some_char = omega arith;
    short = omega arith;
    words = omega arith;
  }

  pub jumping-IsLine : IsLine string_at (codes "zstage: jumping to next booting stage\n") []
  unfolding render render_loop conversion_text round
  jumping-IsLine = record {
    text = codes "zstage: jumping to next booting stage\n";
    renders = refl;
    some_char = omega arith;
    short = omega arith;
    words = tt;
  }

  pub console-IsLine :
      (a : ℕ)
      → a < 2 ^ 64
      → length (string_at a) ≤ 12
      → IsLine string_at (codes "zstage: console device %s\n") (a ∷ [])
  unfolding render render_loop conversion_text round
  console-IsLine a h k = record {
    text = codes "zstage: console device " ++ (field (shown a) ++ (b'\n' ∷ []));
    renders = refl;
    some_char = omega arith;
    short = omega (arith, length-append (field (shown a)) (b'\n' ∷ []), length-shown a k);
    words = (h, tt);
  }

  pub fdt-IsLine :
      (a : ℕ)
      → a < 2 ^ 64
      → IsLine string_at (codes "zstage: setup platform FDT at 0x%lx\n") (a ∷ [])
  unfolding render render_loop conversion_text round
  fdt-IsLine a h = record {
    text = codes "zstage: setup platform FDT at 0x" ++ (unsigned 16 a ++ (b'\n' ∷ []));
    renders = refl;
    some_char = omega arith;
    short = omega (arith, length-append (unsigned 16 a) (b'\n' ∷ []), length-hex a h);
    words = (h, tt);
  }

  pub next-IsLine :
      (a n : ℕ)
      → a < 2 ^ 64
      → n < 2 ^ 64
      → IsLine string_at (codes "zstage: next booting stage at 0x%lx (%lu bytes)\n") (a ∷ n ∷ [])
  unfolding render render_loop conversion_text round
  next-IsLine a n h k =
      let behind = unsigned 10 n ++ codes " bytes)\n" in
      record {
        text =
            codes "zstage: next booting stage at 0x" ++ (unsigned 16 a ++ (codes " (" ++ behind));
        renders = refl;
        some_char = omega arith;
        short = omega (
          arith,
          length-append (unsigned 16 a) (codes " (" ++ behind),
          length-append (unsigned 10 n) (codes " bytes)\n"),
          length-hex a h,
          length-decimal n k,
        );
        words = (h, (k, tt));
      }

  pub copying-IsLine :
      (a size dest src : ℕ)
      → a < 2 ^ 64
      → length (string_at a) ≤ 12
      → size < 2 ^ 64
      → dest < 2 ^ 64
      → src < 2 ^ 64
      → IsLine string_at
          (codes "zstage: copying %s (%lu bytes) to 0x%lx from 0x%lx\n")
          (a ∷ size ∷ dest ∷ src ∷ [])
  unfolding render render_loop conversion_text round
  copying-IsLine a size dest src ha hs hn hd hc =
      let from = unsigned 16 src ++ (b'\n' ∷ []) in
      let to = unsigned 16 dest ++ (codes " from 0x" ++ from) in
      let many = unsigned 10 size ++ (codes " bytes) to 0x" ++ to) in
      record {
        text = codes "zstage: copying " ++ (field (shown a) ++ (codes " (" ++ many));
        renders = refl;
        some_char = omega arith;
        short = omega (
          arith,
          length-append (field (shown a)) (codes " (" ++ many),
          length-append (unsigned 10 size) (codes " bytes) to 0x" ++ to),
          length-append (unsigned 16 dest) (codes " from 0x" ++ from),
          length-append (unsigned 16 src) (b'\n' ∷ []),
          length-shown a hs,
          length-decimal size hn,
          length-hex dest hd,
          length-hex src hc,
        );
        words = (ha, (hn, (hd, (hc, tt))));
      }
