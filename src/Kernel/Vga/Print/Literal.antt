-- ===== src/Kernel/Vga/Print/Literal.antt =====
-- The literals of the source as texts.
use free_micro_nix.Base.{
  ℕ, ◌^◌, ◌<◌, ◌≡◌, refl, inl, inr, Bool, true, false, not, ◌&&◌, List, [], ◌∷◌, ◌++◌, arith, ◌==◌,
}
use Prim.Native.String.{String}
use Prim.Native.Char.{code}
use free_micro_nix.Kernel.Vga.Print.Formatted.{Setting, IsPrintable, IsConvertible}

-- The characters of a literal.
unfoldable pub bytes : String → List ℕ
bytes String.[] = []
bytes (String.◌∷◌ c s) = code c ∷ bytes s

unfoldable pub is_plain : List ℕ → Bool
is_plain [] = true
is_plain (c ∷ cs) = not (c == b'%') && is_plain cs

-- Characters in front of a format that start no conversion.
pub IsPrintable-append :
    (e : Setting) (cs format args : List ℕ)
    → is_plain cs ≡ true
    → IsPrintable e false format args
    → IsPrintable e false (cs ++ format) args
unfolding is_plain
IsPrintable-append e [] format args plain can = can
IsPrintable-append e (c ∷ cs) format args plain can = (
  λ percent. absurd (ground arith),
  λ other. IsPrintable-append e cs format args (ground arith) can,
)

-- A conversion in front of a format.
pub IsPrintable-conversion :
    (e : Setting) (c arg : ℕ) (format args : List ℕ)
    → IsConvertible e c arg
    → IsPrintable e false format args
    → IsPrintable e false (b'%' ∷ c ∷ format) (arg ∷ args)
IsPrintable-conversion e c arg format args fits can =
    (λ _. (fits, can), λ other. absurd (other refl))

-- A word for the conversion to base 16.
pub hexadecimal : (e : Setting) (arg : ℕ) → arg < 2 ^ 32 → IsConvertible e b'x' arg
hexadecimal e arg lt = record {
  number = λ x. (lt, inr (inl refl));
  text = λ s. absurd (omega arith);
}
