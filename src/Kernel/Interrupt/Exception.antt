-- ===== src/Kernel/Interrupt/Exception.antt =====
-- The messages of the exceptions, and what an exception shows.
use free_micro_nix.Base.{ℕ, ◌^◌, ◌<◌, ◌≡◌, refl, false, List, [], ◌∷◌, ◌++◌}
use free_micro_nix.Libc.Number.Format.Signed.{itoa_text}
use free_micro_nix.Kernel.Vga.Print.Literal.{
  hexadecimal, bytes, is_plain, IsPrintable-append, IsPrintable-conversion,
}
use free_micro_nix.Kernel.Vga.Print.Formatted.{
  rendered, converted, Setting, IsPrintable, IsConvertible,
}
use Prim.Native.String.{String}

-- The texts of the table `exception_messages`.
abbrev pub exception_texts : List String
exception_texts =
    "Division By Zero" ∷ "Debug" ∷ "Non Maskable Interrupt" ∷ "Breakpoint"
    ∷ "Into Detected Overflow" ∷ "Out of Bounds" ∷ "Invalid Opcode" ∷ "No Coprocessor"
    ∷ "Double Fault" ∷ "Coprocessor Segment Overrun" ∷ "Bad TSS" ∷ "Segment Not Present"
    ∷ "Stack Fault" ∷ "General Protection Fault" ∷ "Page Fault" ∷ "Unknown Interrupt"
    ∷ "Coprocessor Fault" ∷ "Alignment Check" ∷ "Machine Check" ∷ "Reserved" ∷ "Reserved"
    ∷ "Reserved" ∷ "Reserved" ∷ "Reserved" ∷ "Reserved" ∷ "Reserved" ∷ "Reserved" ∷ "Reserved"
    ∷ "Reserved" ∷ "Reserved" ∷ "Reserved" ∷ "Reserved" ∷ []

abbrev pub exception_format : String
exception_format = "Exception %x: %s (code %x)\n"

-- What is to be seen of an exception in the first line.
abbrev pub exception_line : ℕ → List ℕ → ℕ → List ℕ
exception_line n text err_code =
    bytes "Exception "
    ++ (itoa_text n b'x'
        ++ (bytes ": " ++ (text ++ (bytes " (code " ++ (itoa_text err_code b'x' ++ bytes ")\n")))))

pub rendered-exception_line :
    (strings : ℕ → List ℕ) (n p err_code : ℕ)
    → rendered strings false (bytes exception_format) (n ∷ p ∷ err_code ∷ [])
      ≡ exception_line n (strings p) err_code
unfolding rendered converted bytes
rendered-exception_line strings n p err_code = refl

pub exception_format-IsPrintable :
    (e : Setting) (n p err_code : ℕ)
    → n < 2 ^ 32
    → err_code < 2 ^ 32
    → IsConvertible e b's' p
    → IsPrintable e false (bytes exception_format) (n ∷ p ∷ err_code ∷ [])
unfolding bytes is_plain
exception_format-IsPrintable e n p err_code lt lt' text =
    let end = IsPrintable-append e (bytes ")\n") [] [] refl tt in
    let third =
      IsPrintable-conversion e b'x' err_code (bytes ")\n") [] (hexadecimal e err_code lt') end in
    let second =
      IsPrintable-conversion e b's' p (bytes " (code %x)\n") (err_code ∷ []) text
        (IsPrintable-append e (bytes " (code ") (bytes "%x)\n") (err_code ∷ []) refl third) in
    IsPrintable-append e (bytes "Exception ") (bytes "%x: %s (code %x)\n") (n ∷ p ∷ err_code ∷ [])
      refl
      (IsPrintable-conversion e b'x' n (bytes ": %s (code %x)\n") (p ∷ err_code ∷ [])
        (hexadecimal e n lt)
        (IsPrintable-append e (bytes ": ") (bytes "%s (code %x)\n") (p ∷ err_code ∷ []) refl
          second))
