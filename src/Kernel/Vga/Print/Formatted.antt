-- ===== src/Kernel/Vga/Print/Formatted.antt =====
-- What kprintf is to show: its format as a text, and when a call is in order.
use free_micro_nix.Base.{
  ℕ, ◌+◌, ◌^◌, ◌≤◌, ◌<◌, ◌≡◌, refl, ◌≢◌, ◌⊎◌, Bool, true, false, ◌||◌, List, [], ◌∷◌, ◌++◌, ◌==◌,
  if◌then◌else◌, length, u8,
}
use free_micro_nix.Mem.{Mem, IsObject, SameOutside, CString}
use free_micro_nix.Libc.Number.Format.Signed.{itoa_text, Fits}
use free_micro_nix.Kernel.Vga.{Terminal, terminal_putch}
use free_micro_nix.Kernel.Vga.Print.{Console, putch_on}
use free_micro_nix.Kernel.Vga.Print.Shown.{shown}

-- The terminal behind a text.
unfoldable pub typed : List ℕ → Terminal → Terminal
typed [] t = t
typed (c ∷ cs) t = typed cs (terminal_putch c t)

pub typed-append : (cs ds : List ℕ) (t : Terminal) → typed (cs ++ ds) t ≡ typed ds (typed cs t)
unfolding typed
typed-append [] ds t = refl
typed-append (c ∷ cs) ds t = typed-append cs ds (terminal_putch c t)

pub shown-typed :
    (cs : List ℕ) (s : Console) → shown cs s ≡ record s { terminal = typed cs s.terminal }
unfolding shown typed
shown-typed [] s = refl
shown-typed (c ∷ cs) s = shown-typed cs (putch_on c s)

abbrev pub is_number : ℕ → Bool
is_number c = c == b'd' || c == b'u' || c == b'x'

-- The format as a text: `strings` says which string stands at an address, and what "(null)" is at 0.
module _ (strings : ℕ → List ℕ) where
  -- One conversion of one argument.
  unfoldable pub converted : ℕ → ℕ → List ℕ
  converted c arg =
      if is_number c then itoa_text arg c else if c == b's' then strings arg else u8 arg ∷ []

  -- The second argument tells whether a percent sign stands before. Where an argument is missing, nothing
  -- more is rendered.
  unfoldable pub rendered : Bool → List ℕ → List ℕ → List ℕ
  unfolding converted
  rendered before [] args = []
  rendered false (c ∷ format) args =
      let after = rendered true format args in
      let rest = rendered false format args in if c == b'%' then after else c ∷ rest
  rendered true (c ∷ format) [] = []
  rendered true (c ∷ format) (arg ∷ args) = converted c arg ++ rendered false format args

-- kprintf's surroundings: the memory before the call, its buffer of 20 bytes, the address of "(null)", and
-- a bound on the strings.
pub record Setting : Type 0 where
  pub mem : Mem
  pub buf : ℕ
  pub null_text : ℕ
  pub limit : ℕ
  pub strings : ℕ → List ℕ

-- A string outside the buffer.
abbrev pub Apart : Setting → ℕ → List ℕ → Type 0
Apart e p cs = CString e.mem p cs × ((p + length cs < e.buf) ⊎ (e.buf + 20 ≤ p))

-- What an argument has to be for its conversion.
pub record IsConvertible (e : Setting) (c arg : ℕ) : Type 0 where
  pub number : is_number c ≡ true → (arg < 2 ^ 32) × Fits arg c
  pub text :
      c ≡ b's'
      → Apart e (if arg == 0 then e.null_text else arg) (e.strings arg)
        × (length (e.strings arg) < e.limit)

-- Every conversion of the format has its argument.
abbrev pub IsPrintable : Setting → Bool → List ℕ → List ℕ → Type 0
IsPrintable e before [] args = Unit {0}
IsPrintable e false (c ∷ format) args =
    (c ≡ b'%' → IsPrintable e true format args) × (c ≢ b'%' → IsPrintable e false format args)
IsPrintable e true (c ∷ format) [] = ⊥
IsPrintable e true (c ∷ format) (arg ∷ args) =
    IsConvertible e c arg × IsPrintable e false format args

-- What a part of kprintf leaves: the text on the terminal, and the memory outside the buffer.
pub record Typed (e : Setting) (cs : List ℕ) (s t : Console) : Type 0 where
  pub terminal : t.terminal ≡ typed cs s.terminal
  pub outside : SameOutside e.buf 20 e.mem t.mem
  pub buffer : IsObject t.mem e.buf 20
