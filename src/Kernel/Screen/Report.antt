-- ===== src/Kernel/Screen/Report.antt =====
-- The report of an exception: its entries, and its two dumps.
use free_micro_nix.Base.{ℕ, ◌^◌, ◌<◌, ◌≡◌, refl, List, [], ◌∷◌}
use Prim.Native.String.{String}
use free_micro_nix.Kernel.Port.{Log, printed, colored}
use free_micro_nix.Kernel.Interrupt.{Context, color_light_red}
use free_micro_nix.Kernel.Interrupt.Exception.{exception_format}
use free_micro_nix.Kernel.Vga.Print.Literal.{bytes, is_plain}
use free_micro_nix.Kernel.Vga.Print.Dump.{dump_format, IsDump}

-- The registers of the two dumps have 32 bits.
pub record AreWords (c : Context) : Type 0 where
  pub err_code : c.err_code < 2 ^ 32
  pub cs : c.cs < 2 ^ 32
  pub ss : c.ss < 2 ^ 32
  pub ds : c.ds < 2 ^ 32
  pub edi : c.edi < 2 ^ 32
  pub esi : c.esi < 2 ^ 32
  pub ebp : c.ebp < 2 ^ 32
  pub ebx : c.ebx < 2 ^ 32
  pub edx : c.edx < 2 ^ 32
  pub ecx : c.ecx < 2 ^ 32
  pub eax : c.eax < 2 ^ 32

abbrev pub segments_format : String
segments_format = "\nDumping Segment Registers:\n cs: %x ss: %x ds: %x"

abbrev pub general_format : String
general_format =
    "\nDumping General Purpose Registers:\n edi: %x esi: %x ebp: %x ebx: %x edx: %x ecx: %x eax: %x"

-- What is printed before the registers that are not passed.
abbrev pub report : (ℕ → ℕ) → Context → Log
report msgs c =
    colored color_light_red
    ∷ printed exception_format (c.int_no ∷ msgs c.int_no ∷ c.err_code ∷ [])
    ∷ printed segments_format (c.cs ∷ c.ss ∷ c.ds ∷ [])
    ∷ printed general_format (c.edi ∷ c.esi ∷ c.ebp ∷ c.ebx ∷ c.edx ∷ c.ecx ∷ c.eax ∷ [])
    ∷ []

abbrev pub remainder : Log
remainder =
    printed "\nDumping Other Registers:\n eip: %x eflags: %x useresp: %x" []
    ∷ printed "\nKernel Panic!\n" []
    ∷ []

abbrev pub segment_registers : Context → List (List ℕ × ℕ)
segment_registers c =
    (bytes "\nDumping Segment Registers:\n cs: ", c.cs)
    ∷ (bytes " ss: ", c.ss)
    ∷ (bytes " ds: ", c.ds)
    ∷ []

abbrev pub general_registers : Context → List (List ℕ × ℕ)
general_registers c =
    (bytes "\nDumping General Purpose Registers:\n edi: ", c.edi)
    ∷ (bytes " esi: ", c.esi)
    ∷ (bytes " ebp: ", c.ebp)
    ∷ (bytes " ebx: ", c.ebx)
    ∷ (bytes " edx: ", c.edx)
    ∷ (bytes " ecx: ", c.ecx)
    ∷ (bytes " eax: ", c.eax)
    ∷ []

pub segment_registers-IsDump : (c : Context) → AreWords c → IsDump (segment_registers c)
unfolding IsDump bytes is_plain
segment_registers-IsDump c words = (refl, words.cs, (refl, words.ss, (refl, words.ds, tt)))

pub general_registers-IsDump : (c : Context) → AreWords c → IsDump (general_registers c)
unfolding IsDump bytes is_plain
general_registers-IsDump c words = (
  refl,
  words.edi,
  (
    refl,
    words.esi,
    (
      refl,
      words.ebp,
      (refl, words.ebx, (refl, words.edx, (refl, words.ecx, (refl, words.eax, tt)))),
    ),
  ),
)

pub segment_registers-format :
    (c : Context) → dump_format (segment_registers c) ≡ bytes segments_format
unfolding dump_format bytes
segment_registers-format c = refl

pub general_registers-format :
    (c : Context) → dump_format (general_registers c) ≡ bytes general_format
unfolding dump_format bytes
general_registers-format c = refl
