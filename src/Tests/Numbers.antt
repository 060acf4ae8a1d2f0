-- ===== src/Tests/Numbers.antt =====
-- libc/stdlib, and the printing of kprintf.
use free_micro_nix.Base.{
  ℕ, zero, suc, ◌+◌, ◌-◌, ◌%◌, ◌^◌, ◌≡◌, refl, inl, inr, true, false, Option, some, List, [], ◌∷◌,
  ◌++◌, map, arith, ◌==◌, if◌then◌else◌, length, Run, ◌>>=◌, Returns, ok, fault, timeout, u32,
}
use free_micro_nix.Tests.Strings.{overlay, hello, lo, ram, room}
use free_micro_nix.Tests.Screen.{cursor_at}
use free_micro_nix.Mem.{Mem, IsObject, CString, SameOutside, write, load, store}
use free_micro_nix.Mem.Chars.{Ended}
use free_micro_nix.Libc.Str.Scan.{strlen}
use free_micro_nix.Libc.Number.Reverse.{strreverse}
use free_micro_nix.Libc.Number.Numeral.{digit_char, value}
use free_micro_nix.Libc.Number.Format.{atoi, uitoa, u64toa, itoa}
use free_micro_nix.Libc.Number.Format.Unsigned.{padded, u64toa-padded}
use free_micro_nix.Libc.Number.Format.Parsed.{atoi-value}
use free_micro_nix.Libc.Number.Format.Roundtrip.{atoi-uitoa}
use free_micro_nix.Libc.Number.Format.Signed.{itoa_text, itoa-Ended}
use free_micro_nix.Kernel.Vga.Print.{kprintf}
use free_micro_nix.Kernel.Vga.Print.Formatted.{
  typed, rendered, Setting, Apart, IsConvertible, IsPrintable,
}
use free_micro_nix.Kernel.Vga.Print.Refined.{kprintf-Typed}
use free_micro_nix.Kernel.Vga.Print.Extent.{Extends, typed-Extends}
use free_micro_nix.Kernel.Vga.Print.Pointed.{is_whole, Points}

-- 0x2A in base 16 with four places
hexadecimal : List ℕ
hexadecimal = b'0' ∷ b'0' ∷ b'2' ∷ b'A' ∷ 0 ∷ []

read_back : ℕ → ℕ → Run (Mem × ℕ) → List (Option ℕ)
read_back p zero r = []
read_back p (suc n) fault = []
read_back p (suc n) timeout = []
read_back p (suc n) (ok (m, r)) = m p ∷ read_back (p + 1) n (ok (m, r))

uitoa_run : read_back 150 5 (uitoa 9 ram 150 42 16 4) ≡ map some hexadecimal
unfolding uitoa hexadecimal read_back store write strreverse load strlen digit_char
uitoa_run = refl

itoa_run :
    read_back 150 4 (itoa 9 ram (2 ^ 32 - 17) 150 10)
    ≡ some b'-' ∷ some b'1' ∷ some b'7' ∷ some 0 ∷ []
unfolding itoa read_back store write load digit_char
itoa_run = refl

-- A negative number in base 16 is written with all 16 digits of the 64-bit word.
itoa_hexadecimal_run :
    read_back 150 17 (itoa 20 ram (2 ^ 32 - 1) 150 b'x')
    ≡ some b'F'
      ∷ some b'F'
      ∷ some b'F'
      ∷ some b'F'
      ∷ some b'F'
      ∷ some b'F'
      ∷ some b'F'
      ∷ some b'F'
      ∷ some b'F'
      ∷ some b'F'
      ∷ some b'F'
      ∷ some b'F'
      ∷ some b'F'
      ∷ some b'F'
      ∷ some b'F'
      ∷ some b'F'
      ∷ some 0
      ∷ []
unfolding itoa read_back store write load digit_char
itoa_hexadecimal_run = refl

atoi_run : atoi 9 (overlay 150 (b'4' ∷ b'2' ∷ []) ram) 150 ≡ ok 42
unfolding atoi strlen load
atoi_run = refl

u64toa-padded_example :
    let text = padded 16 8 4 42 in
    Returns
      (λ (g, r). (r ≡ 150) × CString g 150 text × SameOutside 150 (suc (length text)) ram g)
      (u64toa 20 ram 150 42 16 4)
    × Returns
        (λ (g, r).
          (r ≡ 150)
          × CString g 150 (padded 16 8 4 (42 % 2 ^ 32))
          × SameOutside 150 (suc (length (padded 16 8 4 (42 % 2 ^ 32)))) ram g)
        (uitoa 20 ram 150 42 16 4)
u64toa-padded_example =
    u64toa-padded 16 8 20 42 4 150 ram (omega arith) (omega arith) (omega arith) (omega arith)
      (omega arith) (omega arith) (room 150 13 (omega arith))

atoi-uitoa_example : (uitoa 20 ram 150 1234567 10 9 >>= λ (g, r). atoi 20 g r) ≡ ok 1234567
atoi-uitoa_example =
    atoi-uitoa 20 1234567 9 150 ram (omega arith) (omega arith) (omega arith)
      (room 150 20 (omega arith))

itoa-Ended_example :
    let text = itoa_text (2 ^ 32 - 17) 10 in
    Returns
      (λ (g, p). (p ≡ 150 + length text) × Ended ram 150 text g)
      (itoa 17 ram (2 ^ 32 - 17) 150 10)
itoa-Ended_example =
    itoa-Ended 17 (2 ^ 32 - 17) 150 10 ram (omega arith)
      (inr (inr (refl, omega arith, omega arith))) (omega arith) (room 150 20 (omega arith))

abbrev forty_two : List ℕ
forty_two = b'4' ∷ b'2' ∷ []

atoi-value_example : atoi 9 (overlay 150 forty_two ram) 150 ≡ ok (u32 (value 10 0 forty_two))
atoi-value_example =
    atoi-value forty_two 9 (overlay 150 forty_two ram) 150
      (refl, omega arith, omega arith, (refl, omega arith, omega arith, refl))
      (omega arith, omega arith, (omega arith, omega arith, tt)) (omega arith)

-- "n=%d %s"
abbrev format : List ℕ
format = b'n' ∷ b'=' ∷ b'%' ∷ b'd' ∷ b' ' ∷ b'%' ∷ b's' ∷ []

abbrev setting : Setting
setting = record {
  mem = overlay 130 format ram;
  buf = 170;
  null_text = 110;
  limit = 6;
  strings = λ a. if a == 100 then hello else [];
}

forty_two_IsConvertible : IsConvertible setting b'd' 42
forty_two_IsConvertible = record {
  number = λ e. (omega arith, inl (omega arith));
  text = λ e. absurd (omega arith);
}

hello_IsConvertible : IsConvertible setting b's' 100
hello_IsConvertible = record {
  number = λ e. absurd (ground arith);
  text = λ e. (
    (
      (
        refl,
        omega arith,
        omega arith,
        (
          refl,
          omega arith,
          omega arith,
          (
            refl,
            omega arith,
            omega arith,
            (refl, omega arith, omega arith, (refl, omega arith, omega arith, refl)),
          ),
        ),
      ),
      inl (omega arith),
    ),
    omega arith,
  );
}

format-IsPrintable : IsPrintable setting false format (42 ∷ 100 ∷ [])
format-IsPrintable = (
  λ e. absurd (omega arith),
  λ ne. (
    λ e. absurd (omega arith),
    λ ne. (
      λ e. (
        forty_two_IsConvertible,
        (λ e. absurd (omega arith), λ ne. (λ e. (hello_IsConvertible, tt), λ ne. absurd (ne refl))),
      ),
      λ ne. absurd (ne refl),
    ),
  ),
)

format-Apart : Apart setting 130 format
format-Apart = (
  (
    refl,
    omega arith,
    omega arith,
    (
      refl,
      omega arith,
      omega arith,
      (
        refl,
        omega arith,
        omega arith,
        (
          refl,
          omega arith,
          omega arith,
          (
            refl,
            omega arith,
            omega arith,
            (refl, omega arith, omega arith, (refl, omega arith, omega arith, refl)),
          ),
        ),
      ),
    ),
  ),
  inl (omega arith),
)

buffer_IsObject : IsObject setting.mem 170 20
buffer_IsObject i lt = ground arith

kprintf-Typed_example :
    Returns
      (λ u.
        (u.terminal ≡ typed (rendered setting.strings false format (42 ∷ 100 ∷ [])) (cursor_at 3 4))
        × SameOutside 170 20 setting.mem u.mem
        × (is_whole format ≡ true → Points u))
      (kprintf 34 170 110 130
        (42 ∷ 100 ∷ [])
        (record { mem = setting.mem; terminal = cursor_at 3 4; log = [] }))
kprintf-Typed_example =
    kprintf-Typed setting format (42 ∷ 100 ∷ []) 34 130 (cursor_at 3 4) [] format-Apart
      format-IsPrintable (omega arith) buffer_IsObject

typed-Extends_example :
    Extends (hello ++ lo) (cursor_at 24 75) (typed (hello ++ lo) (cursor_at 24 75))
typed-Extends_example =
    typed-Extends (hello ++ lo) (cursor_at 24 75)
      (
        ground arith,
        (
          ground arith,
          (ground arith, (ground arith, (ground arith, (ground arith, (ground arith, tt))))),
        ),
      )
      (omega arith) (omega arith)
