-- ===== src/Kernel/Vga/Print/Dump.antt =====
-- Formats that dump registers, and those whose arguments are missing.
use free_micro_nix.Base.{
  ℕ, zero, suc, ◌+◌, ◌^◌, ◌<◌, ◌≡◌, refl, ap, ◌∙◌, true, false, some, List, [], ◌∷◌, ◌++◌, arith,
  ◌==◌, length, fault,
}
use free_micro_nix.Mem.{SameOutside}
use free_micro_nix.Mem.Laws.{load-ok}
use free_micro_nix.Libc.Number.Format.Signed.{itoa_text}
use free_micro_nix.Kernel.Vga.Print.{Console, kprintf, putch_on}
use free_micro_nix.Kernel.Vga.Print.Literal.{
  hexadecimal, is_plain, IsPrintable-append, IsPrintable-conversion,
}
use free_micro_nix.Kernel.Vga.Print.Formatted.{rendered, converted, Setting, Apart, IsPrintable}

-- A dump: texts, each with a register behind it, which is shown in base 16.
unfoldable pub dump_text : List (List ℕ × ℕ) → List ℕ
dump_text [] = []
dump_text ((label, word) ∷ fields) = label ++ (itoa_text word b'x' ++ dump_text fields)

unfoldable pub dump_format : List (List ℕ × ℕ) → List ℕ
dump_format [] = []
dump_format ((label, word) ∷ fields) = label ++ b'%' ∷ b'x' ∷ dump_format fields

unfoldable pub dump_args : List (List ℕ × ℕ) → List ℕ
dump_args [] = []
dump_args ((label, word) ∷ fields) = word ∷ dump_args fields

unfoldable pub IsDump : List (List ℕ × ℕ) → Type 0
IsDump [] = Unit {0}
IsDump ((label, word) ∷ fields) = (is_plain label ≡ true) × (word < 2 ^ 32) × IsDump fields

rendered-append :
    (strings : ℕ → List ℕ) (cs format args : List ℕ)
    → is_plain cs ≡ true
    → rendered strings false (cs ++ format) args ≡ cs ++ rendered strings false format args
unfolding rendered is_plain
rendered-append strings [] format args plain = refl
rendered-append strings (c ∷ cs) format args plain =
    let other : (c == b'%') ≡ false = ground arith in
    rw other (ap (λ rest. c ∷ rest) (rendered-append strings cs format args (ground arith)))

pub rendered-dump_text :
    (strings : ℕ → List ℕ) (fields : List (List ℕ × ℕ))
    → IsDump fields
    → rendered strings false (dump_format fields) (dump_args fields) ≡ dump_text fields
unfolding rendered converted dump_format dump_args dump_text IsDump
rendered-dump_text strings [] dump = refl
rendered-dump_text strings ((label, word) ∷ fields) (plain, small, dump) =
    rendered-append strings label (b'%' ∷ b'x' ∷ dump_format fields) (word ∷ dump_args fields) plain
    ∙ ap (λ rest. label ++ (itoa_text word b'x' ++ rest)) (rendered-dump_text strings fields dump)

pub dump_format-IsPrintable :
    (e : Setting) (fields : List (List ℕ × ℕ))
    → IsDump fields
    → IsPrintable e false (dump_format fields) (dump_args fields)
unfolding dump_format dump_args IsDump
dump_format-IsPrintable e [] dump = tt
dump_format-IsPrintable e ((label, word) ∷ fields) (plain, small, dump) =
    IsPrintable-append e label (b'%' ∷ b'x' ∷ dump_format fields) (word ∷ dump_args fields) plain (
      IsPrintable-conversion e b'x' word (dump_format fields) (dump_args fields)
        (hexadecimal e word small) (dump_format-IsPrintable e fields dump))

-- A conversion whose argument is missing.
pub kprintf-missing :
    (e : Setting) (cs : List ℕ) (d : ℕ) (format : List ℕ) (f p : ℕ) (s : Console)
    → is_plain cs ≡ true
    → Apart e p (cs ++ b'%' ∷ d ∷ format)
    → length cs < f
    → SameOutside e.buf 20 e.mem s.mem
    → kprintf f e.buf e.null_text p [] s ≡ fault
unfolding kprintf is_plain
kprintf-missing e cs d format zero p s plain apart fuel same = absurd (omega arith)
kprintf-missing e [] d format (suc f) p s plain ((at, low, high, (next, low', high', rest)), apart)
      fuel same =
    let here : s.mem p ≡ some b'%' = same p (omega arith) ∙ at in
    let behind : s.mem (p + 1) ≡ some d = same (p + 1) (omega arith) ∙ next in
    let more : (d == 0) ≡ false = ground arith in
    rw (load-ok s.mem p here) (rw (load-ok s.mem (p + 1) behind) (rw more refl))
kprintf-missing e (c ∷ cs) d format (suc f) p s plain ((at, low, high, rest), apart) fuel same =
    let here : s.mem p ≡ some c = same p (omega arith) ∙ at in
    let more : (c == 0) ≡ false = ground arith in
    let other : (c == b'%') ≡ false = ground arith in
    let behind =
      kprintf-missing e cs d format f (p + 1) (putch_on c s) (ground arith) (rest, omega arith)
        (omega arith) same in
    rw (load-ok s.mem p here) (rw more (rw other behind))
