-- ===== src/Kernel/Screen/Legible.antt =====
-- That the lines of kmain are in ASCII.
use free_micro_nix.Base.{ℕ, ◌/◌, ◌≡◌, refl, inl, inr, true, List, ◌++◌, arith, ltb, Bool-cases}
use free_micro_nix.Libc.Number.Numeral.{digit_char}
use free_micro_nix.Libc.Number.Format.Signed.{itoa_text}
use free_micro_nix.Kernel.Vga.Print.Literal.{bytes}
use free_micro_nix.Kernel.Screen.Boot.{memory_line, clock_line, boot_lines}
use free_micro_nix.Libc.Str.Text.{every}
use free_micro_nix.Libc.Str.Text.Every.{every-append, every-itoa_text}
use free_micro_nix.Kernel.Screen.Seen.{is_low, is_ascii, IsLegible}

is_ascii-itoa_text : (val : ℕ) → is_ascii (itoa_text val b'd') ≡ true
unfolding digit_char
is_ascii-itoa_text val = every-itoa_text is_low (λ d lt. ground arith) refl val

amount-is_ascii :
    (n k : ℕ) (suffix : List ℕ)
    → is_ascii suffix ≡ true
    → is_ascii (
        bytes "Available Memory: "
        ++ (itoa_text n b'd' ++ (suffix ++ (bytes " (" ++ (itoa_text k b'd' ++ bytes "KB)")))))
      ≡ true
unfolding bytes every
amount-is_ascii n k suffix ascii = every-append is_low (itoa_text n b'd') _ (is_ascii-itoa_text n) (
    every-append is_low suffix _ ascii
      (every-append is_low (itoa_text k b'd') (bytes "KB)") (is_ascii-itoa_text k) refl))

memory_line-is_ascii : (mem_upper : ℕ) → is_ascii (memory_line mem_upper) ≡ true
unfolding memory_line bytes every
memory_line-is_ascii mem_upper = elim (Bool-cases (ltb 100000 mem_upper)) [
  | inl large ↦ rw large (amount-is_ascii (mem_upper / 1000) mem_upper (bytes "MB") refl)
  | inr small ↦ rw small (amount-is_ascii (mem_upper / 1) mem_upper (bytes "KB") refl)
]

pub boot_lines-IsLegible : (mem_upper rtc_ticks : ℕ) → IsLegible (boot_lines mem_upper rtc_ticks)
unfolding clock_line bytes every
boot_lines-IsLegible mem_upper rtc_ticks = (
  omega arith,
  refl,
  (
    omega arith,
    refl,
    (
      omega arith,
      refl,
      (
        omega arith,
        refl,
        (
          omega arith,
          refl,
          (
            omega arith,
            refl,
            (
              omega arith,
              refl,
              (
                omega arith,
                memory_line-is_ascii mem_upper,
                (
                  omega arith,
                  refl,
                  (
                    omega arith,
                    refl,
                    (
                      omega arith,
                      refl,
                      (
                        omega arith,
                        is_ascii-itoa_text rtc_ticks,
                        (omega arith, refl, (omega arith, refl, (omega arith, refl, tt))),
                      ),
                    ),
                  ),
                ),
              ),
            ),
          ),
        ),
      ),
    ),
  ),
)
