-- ===== src/Kernel/Screen/Asking.antt =====
-- The entries of a log whose formats ask for arguments.
use free_micro_nix.Base.{ℕ, ◌≡◌, inl, inr, true, false, List, [], ◌∷◌, if◌then◌else◌, Bool-cases}
use free_micro_nix.Kernel.Port.{
  Log, printed, colored, terminal_initialized, out, inp, out_word, out_double, inp_word, inp_double,
  lgdt, lidt, ltr, cli, sti, hlt,
}
use free_micro_nix.Kernel.Vga.Print.Formatted.{Setting, IsPrintable}
use free_micro_nix.Kernel.Vga.Print.Literal.{bytes, is_plain, IsPrintable-append}
use free_micro_nix.Kernel.Screen.Replay.{IsFed}
use mathlib.Core.List.{append-nil}

-- A literal without conversions asks for no argument.
pub plain-IsPrintable :
    (e : Setting) (cs args : List ℕ) → is_plain cs ≡ true → IsPrintable e false cs args
plain-IsPrintable e cs args plain = rw append-nil at (IsPrintable-append e cs [] args plain tt)

-- Without the literals that have no conversion.
unfoldable pub asking : Log → Log
asking [] = []
asking (printed format args ∷ log) =
    let rest = asking log in if is_plain (bytes format) then rest else printed format args ∷ rest
asking (e ∷ log) = asking log

pub asking-IsFed : (e : Setting) (log : Log) → IsFed e (asking log) → IsFed e log
unfolding asking IsFed
asking-IsFed e [] fed = tt
asking-IsFed e (printed format args ∷ log) fed = elim (Bool-cases (is_plain (bytes format))) [
  | inl plain ↦
      (plain-IsPrintable e (bytes format) args plain, asking-IsFed e log (rw plain at fed))
  | inr other ↦ let (can, rest) = rw other at fed in (can, asking-IsFed e log rest)
]
asking-IsFed e (colored c ∷ log) fed = asking-IsFed e log fed
asking-IsFed e (terminal_initialized ∷ log) fed = asking-IsFed e log fed
asking-IsFed e (out p v ∷ log) fed = asking-IsFed e log fed
asking-IsFed e (inp p ∷ log) fed = asking-IsFed e log fed
asking-IsFed e (out_word p v ∷ log) fed = asking-IsFed e log fed
asking-IsFed e (out_double p v ∷ log) fed = asking-IsFed e log fed
asking-IsFed e (inp_word p ∷ log) fed = asking-IsFed e log fed
asking-IsFed e (inp_double p ∷ log) fed = asking-IsFed e log fed
asking-IsFed e (lgdt l a ∷ log) fed = asking-IsFed e log fed
asking-IsFed e (lidt l a ∷ log) fed = asking-IsFed e log fed
asking-IsFed e (ltr s ∷ log) fed = asking-IsFed e log fed
asking-IsFed e (cli ∷ log) fed = asking-IsFed e log fed
asking-IsFed e (sti ∷ log) fed = asking-IsFed e log fed
asking-IsFed e (hlt ∷ log) fed = asking-IsFed e log fed
