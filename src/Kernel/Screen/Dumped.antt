-- ===== src/Kernel/Screen/Dumped.antt =====
-- The screen behind an exception.
use free_micro_nix.Base.{
  ℕ, ◌<◌, ◌≡◌, refl, sym, ap, ◌∙◌, false, some, List, [], ◌∷◌, ◌++◌, arith, ◌==◌, lt→ltb, length,
  get_elem?, get_elem?-lt, Run, ◌>>=◌, Returns, Returns-mono, ok, fault, timeout,
}
use Prim.Native.String.{String}
use mathlib.Core.List.{append_assoc}
use free_micro_nix.Mem.{IsObject, SameOutside}
use free_micro_nix.Kernel.Port.{Bus, Log, printed}
use free_micro_nix.Kernel.Interrupt.{
  Context, System, halted, interrupt_handler, exception_log, panic, color_light_red,
}
use free_micro_nix.Kernel.Interrupt.Exception.{
  exception_texts, exception_format, exception_line, exception_format-IsPrintable,
  rendered-exception_line,
}
use free_micro_nix.Kernel.Vga.{Terminal, terminal_set_color}
use free_micro_nix.Kernel.Vga.Print.{Console, kprintf}
use free_micro_nix.Kernel.Vga.Print.Literal.{bytes, is_plain}
use free_micro_nix.Kernel.Vga.Print.Formatted.{rendered, Setting, Apart, IsConvertible, typed}
use free_micro_nix.Kernel.Screen.{replay, display}
use free_micro_nix.Kernel.Screen.Replay.{IsLoaded, IsFed, replay-Displayed}
use free_micro_nix.Kernel.Vga.Print.Dump.{
  dump_text, dump_args, rendered-dump_text, dump_format-IsPrintable, kprintf-missing,
}
use free_micro_nix.Kernel.Screen.Report.{
  AreWords, segments_format, general_format, report, remainder, segment_registers,
  general_registers, segment_registers-IsDump, general_registers-IsDump, segment_registers-format,
  general_registers-format,
}

-- A fault behind a run that returns.
fault-after :
    {A : Type 0} {B : Type 0} {P : A → Type 0} {r : Run A} (k : A → Run B)
    → Returns P r
    → ((a : A) → P a → k a ≡ fault)
    → (r >>= k) ≡ fault
fault-after k (a, e, p) next = rw e (next a p)

-- The terminal behind the three texts.
abbrev pub dumped : String → Context → Terminal → Terminal
dumped text c t = typed (dump_text (general_registers c)) (
    typed (dump_text (segment_registers c)) (
      typed (exception_line c.int_no (bytes text) c.err_code)
        (terminal_set_color color_light_red t)))

-- The surroundings of an exception: its text is in the table and in memory apart from kprintf's buffer,
-- and so is each format, with enough fuel; the registers have 32 bits.
pub record IsReported (e : Setting) (address : String → ℕ) (f : ℕ) (msgs : ℕ → ℕ) (c : Context)
    (text : String) : Type 0 where
  pub entry : get_elem? exception_texts c.int_no ≡ some text
  pub somewhere : 0 < msgs c.int_no
  pub here : e.strings (msgs c.int_no) ≡ bytes text
  pub apart : Apart e (msgs c.int_no) (bytes text)
  pub short : length (bytes text) < e.limit
  pub words : AreWords c
  pub loaded : IsLoaded e address f (report msgs c)
  pub last_loaded : IsLoaded e address f remainder

report-IsFed :
    (e : Setting) (address : String → ℕ) (f : ℕ) (msgs : ℕ → ℕ) (c : Context) (text : String)
    → IsReported e address f msgs c text
    → IsFed e (report msgs c)
unfolding IsFed dump_args
report-IsFed e address f msgs c text r =
    let vector : c.int_no < 32 = get_elem?-lt exception_texts c.int_no text r.entry in
    let nonzero : (msgs c.int_no == 0) ≡ false = ground (arith, r.somewhere) in
    let fits : IsConvertible e b's' (msgs c.int_no) = record {
      number = λ x. absurd (ground arith);
      text = λ x. rw nonzero (rw r.here (r.apart, r.short));
    } in
    (
      exception_format-IsPrintable e c.int_no (msgs c.int_no) c.err_code (omega arith)
          r.words.err_code fits,
      (
        rw (segment_registers-format c) at
            (dump_format-IsPrintable e (segment_registers c) (segment_registers-IsDump c r.words)),
        (
          rw (general_registers-format c) at (
              dump_format-IsPrintable e (general_registers c) (general_registers-IsDump c r.words)),
          tt,
        ),
      ),
    )

report-dumped :
    (e : Setting) (address : String → ℕ) (f : ℕ) (msgs : ℕ → ℕ) (c : Context) (text : String)
    (t : Terminal)
    → IsReported e address f msgs c text
    → display e.strings (report msgs c) t ≡ dumped text c t
unfolding display dump_args
report-dumped e address f msgs c text t r =
    let first : rendered e.strings false (bytes exception_format)
          (c.int_no ∷ msgs c.int_no ∷ c.err_code ∷ [])
        ≡ exception_line c.int_no (bytes text) c.err_code =
      rendered-exception_line e.strings c.int_no (msgs c.int_no) c.err_code
      ∙ ap (λ cs. exception_line c.int_no cs c.err_code) r.here in
    let second : rendered e.strings false (bytes segments_format) (dump_args (segment_registers c))
        ≡ dump_text (segment_registers c) =
      ap (λ cs. rendered e.strings false cs (dump_args (segment_registers c)))
        (sym (segment_registers-format c))
      ∙ rendered-dump_text e.strings (segment_registers c) (segment_registers-IsDump c r.words) in
    let third : rendered e.strings false (bytes general_format) (dump_args (general_registers c))
        ≡ dump_text (general_registers c) =
      ap (λ cs. rendered e.strings false cs (dump_args (general_registers c)))
        (sym (general_registers-format c))
      ∙ rendered-dump_text e.strings (general_registers c) (general_registers-IsDump c r.words) in
    rw (first, second, third) refl

bind_through :
    (r : Run Console) (g h k : Console → Run Console)
    → ((u : Console) → g u ≡ (h u >>= k))
    → (r >>= g) ≡ ((r >>= h) >>= k)
bind_through (ok u) g h k same = same u
bind_through fault g h k same = refl
bind_through timeout g h k same = refl

-- The first entry that prints, and then the rest.
replay_printed :
    (address : String → ℕ) (f buf null_text : ℕ) (format : String) (args : List ℕ) (log : Log)
    (s : Console)
    → replay address f buf null_text (printed format args ∷ log) s ≡ (
        kprintf f buf null_text (address format) args s >>= λ u.
        replay address f buf null_text log u)
unfolding replay
replay_printed address f buf null_text format args log s = refl

replay-report :
    (address : String → ℕ) (f buf null_text : ℕ) (msgs : ℕ → ℕ) (c : Context) (more : Log)
    (s : Console)
    → replay address f buf null_text (report msgs c ++ more) s ≡ (
        replay address f buf null_text (report msgs c) s >>= λ u.
        replay address f buf null_text more u)
unfolding replay
replay-report address f buf null_text msgs c more s =
    let colored_red : Console = record s {
      terminal = terminal_set_color color_light_red s.terminal;
    } in
    let k = λ (u : Console). replay address f buf null_text more u in
    bind_through (kprintf f buf null_text (address exception_format) _ colored_red) _ _ k λ u.
      bind_through (kprintf f buf null_text (address segments_format) _ u) _ _ k
        λ v. bind_through (kprintf f buf null_text (address general_format) _ v) _ _ k λ w. refl

-- On an exception, one of the vectors 0 to 31, Interrupt_Handler does not return to the stub, and it
-- logs the report, then the message of the other registers, then the panic. Where vga.c is run for the
-- entries of the report, from any state of the terminal, it gets to its end, and the terminal is as after
-- typing, in light red, the vector with its text and the error code, and the dumps of the segment and
-- the general registers, all numbers in base 16; no byte outside kprintf's buffer has changed. Run for
-- the entries behind it too, it ends in a fault, since the next call of kprintf passes none of the three
-- registers that its format asks for. This holds where the table's entry for the vector is the address
-- of its text, the text and the formats stand apart from the buffer, the registers that are dumped have
-- 32 bits, and the fuel is more than each format's length plus 20 plus the bound on the texts.
pub interrupt_handler-dumped :
    (bus : Bus) (msgs : ℕ → ℕ) (c : Context) (s : System) (text : String) (e : Setting)
    (address : String → ℕ) (f : ℕ) (t : Terminal)
    → IsReported e address f msgs c text
    → IsObject e.mem e.buf 20
    → let console : Console = record { mem = e.mem; terminal = t; log = [] } in
      (interrupt_handler bus msgs c s
        ≡ halted (record s { log = s.log ++ (report msgs c ++ remainder) }))
      × Returns
          (λ u. (u.terminal ≡ dumped text c t) × SameOutside e.buf 20 e.mem u.mem)
          (replay address f e.buf e.null_text (report msgs c) console)
      × (replay address f e.buf e.null_text (report msgs c ++ remainder) console ≡ fault)
unfolding interrupt_handler exception_log panic IsLoaded replay bytes is_plain
interrupt_handler-dumped bus msgs c s text e address f t r obj =
    let console : Console = record { mem = e.mem; terminal = t; log = [] } in
    let vector : c.int_no < 32 = get_elem?-lt exception_texts c.int_no text r.entry in
    let shown =
      replay-Displayed e address f false (report msgs c) console r.loaded
        (report-IsFed e address f msgs c text r) (λ a out. refl) obj
        (λ no. absurd (ground arith)) in
    (
      rw (lt→ltb c.int_no 32 vector)
          (ap (λ l. halted (record s { log = l })) (append_assoc s.log _ _)),
      Returns-mono shown λ u d. (d.terminal ∙ report-dumped e address f msgs c text t r, d.outside),
      replay-report address f e.buf e.null_text msgs c remainder console
          ∙ fault-after (λ u. replay address f e.buf e.null_text remainder u) shown
              λ u d.
                rw
                  (kprintf-missing e (bytes "\nDumping Other Registers:\n eip: ") b'x'
                    (bytes " eflags: %x useresp: %x") f
                    (address "\nDumping Other Registers:\n eip: %x eflags: %x useresp: %x") u refl
                    r.last_loaded.0 (omega (arith, r.last_loaded.1)) d.outside)
                  refl,
    )
