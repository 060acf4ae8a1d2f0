-- ===== src/Kernel/Vga/Print/Refined.antt =====
-- That kprintf shows the text that its format renders to.
use free_micro_nix.Base.{
  ℕ, zero, suc, ◌+◌, ◌≤◌, ◌<◌, ◌≡◌, refl, sym, ap, ◌∙◌, ◌⊎◌, inl, inr, true, false, some, List, [],
  ◌∷◌, ◌++◌, arith, ◌==◌, if◌then◌else◌, Bool-cases, length, Returns, Returns-mono, u8,
}
use free_micro_nix.Mem.{IsObject, SameOutside, CString}
use free_micro_nix.Mem.Laws.{load-ok}
use free_micro_nix.Mem.Strings.{CString-same}
use free_micro_nix.Mem.Chars.{Ended-IsObject}
use free_micro_nix.Libc.Number.Format.Signed.{itoa_text, itoa-Ended, length-itoa_text}
use free_micro_nix.Kernel.Port.{Log}
use free_micro_nix.Kernel.Vga.{Terminal}
use free_micro_nix.Kernel.Vga.Print.{Console, putch_on, cursor_on, terminal_print, convert, kprintf}
use free_micro_nix.Kernel.Vga.Print.Shown.{shown, terminal_print-shown}
use free_micro_nix.Kernel.Vga.Print.Formatted.{
  typed, typed-append, shown-typed, is_number, converted, rendered, Setting, Apart, IsConvertible,
  IsPrintable, Typed,
}
use free_micro_nix.Kernel.Vga.Print.Pointed.{
  Points, cursor_on-Points, is_whole, is_whole-plain, is_whole-cut, is_whole-percent, TypedThrough,
}

-- Printing a string that stands in memory.
print-Typed :
    (e : Setting) (cs : List ℕ) (f p : ℕ) (s : Console)
    → CString s.mem p cs
    → length cs < f
    → SameOutside e.buf 20 e.mem s.mem
    → IsObject s.mem e.buf 20
    → Returns (Typed e cs s) (terminal_print f p s)
print-Typed e cs f p s str lt same obj = (
  cursor_on (shown cs s),
  terminal_print-shown cs f p s str lt,
  rw (shown-typed cs s) (record { terminal = refl; outside = same; buffer = obj }),
)

convert-Typed :
    (e : Setting) (c arg f : ℕ) (s : Console)
    → IsConvertible e c arg
    → e.limit ≤ f
    → 20 < f
    → SameOutside e.buf 20 e.mem s.mem
    → IsObject s.mem e.buf 20
    → Returns (Typed e (converted e.strings c arg) s) (convert f e.buf e.null_text c arg s)
unfolding convert converted typed
convert-Typed e c arg f s can long fuel same obj = elim (Bool-cases (is_number c)) [
  | inl num ↦
      let (small, fits) = can.number num in
      let ((g, p), run, (at, ended)) =
        itoa-Ended f arg e.buf c s.mem small fits (omega arith) obj in
      let size = length-itoa_text arg c in
      let near = λ (a : ℕ) (out : (a < e.buf) ⊎ (e.buf + 20 ≤ a)).
        ended.outside a (omega arith) ∙ same a out in
      let (t, shows, done) =
        print-Typed e (itoa_text arg c) f e.buf (record s { mem = g }) ended.text (omega arith) near
          (Ended-IsObject (itoa_text arg c) e.buf 20 ended obj) in
      (
        t,
        rw num (rw run shows),
        rw num (record { terminal = done.terminal; outside = done.outside; buffer = done.buffer }),
      )
  | inr other ↦ rw other (elim (Bool-cases (c == b's')) [
    | inl is_text ↦
        let ((str, apart), short) = can.text (ground arith) in
        let here =
          CString-same (e.strings arg) e.mem s.mem (if arg == 0 then e.null_text else arg) str
            (λ a low high. same a (omega arith)) in
        rw is_text (
          print-Typed e (e.strings arg) f (if arg == 0 then e.null_text else arg) s here
            (omega arith) same obj)
    | inr one ↦
        rw one
          ((putch_on (u8 arg) s, refl, record { terminal = refl; outside = same; buffer = obj }))
  ])
]

Typed-append :
    (e : Setting) (cs ds : List ℕ) {s t u : Console}
    → Typed e cs s t
    → Typed e ds t u
    → Typed e (cs ++ ds) s u
Typed-append e cs ds {s} {t} {u} a b = record {
  terminal = b.terminal ∙ ap (typed ds) a.terminal ∙ sym (typed-append cs ds s.terminal);
  outside = b.outside;
  buffer = b.buffer;
}

-- A round of kprintf for a character that is no percent sign.
plain-Typed :
    (e : Setting) (format cs args : List ℕ) (f p c : ℕ) (s : Console)
    → s.mem p ≡ some c
    → 0 < c
    → (c == b'%') ≡ false
    → Returns
        (TypedThrough e format cs (putch_on c s))
        (kprintf f e.buf e.null_text (p + 1) args (putch_on c s))
    → Returns (TypedThrough e (c ∷ format) (c ∷ cs) s) (kprintf (suc f) e.buf e.null_text p args s)
unfolding kprintf typed
plain-Typed e format cs args f p c s here low plain (t, run, (done, points)) =
    let more : (c == 0) ≡ false = ground arith in
    (
      t,
      rw (load-ok s.mem p here) (rw more (rw plain run)),
      (
        record { terminal = done.terminal; outside = done.outside; buffer = done.buffer },
        λ whole. points (sym (is_whole-plain c format plain) ∙ whole),
      ),
    )

pub kprintf_from :
    (e : Setting) (format : List ℕ) (args : List ℕ) (f p : ℕ) (s : Console)
    → Apart e p format
    → IsPrintable e false format args
    → length format + e.limit + 20 < f
    → SameOutside e.buf 20 e.mem s.mem
    → IsObject s.mem e.buf 20
    → Returns
        (TypedThrough e format (rendered e.strings false format args) s)
        (kprintf f e.buf e.null_text p args s)
unfolding kprintf rendered typed
kprintf_from e format args zero p s apart can fuel same obj = absurd (omega arith)
kprintf_from e [] args (suc f) p s (end, apart) can fuel same obj =
    let here : s.mem p ≡ some 0 = same p (omega arith) ∙ end in
    rw (load-ok s.mem p here) (
      (
        cursor_on s,
        refl,
        (record { terminal = refl; outside = same; buffer = obj }, λ whole. cursor_on-Points s),
      ))
kprintf_from e (c ∷ []) args (suc f) p s ((at, low, high, end), apart) can fuel same obj =
    let here : s.mem p ≡ some c = same p (omega arith) ∙ at in
    let next : s.mem (p + 1) ≡ some 0 = same (p + 1) (omega arith) ∙ end in
    let more : (c == 0) ≡ false = ground arith in
    elim (Bool-cases (c == b'%')) [
      | inl percent ↦ rw percent (
          (
            s,
            rw (load-ok s.mem p here) (rw more (rw percent (rw (load-ok s.mem (p + 1) next) refl))),
            (
              record { terminal = refl; outside = same; buffer = obj },
              λ whole. absurd (ground (arith, is_whole-cut c percent)),
            ),
          ))
      | inr plain ↦ rw plain (
          plain-Typed e [] [] args f p c s here low plain (
            kprintf_from e [] args f (p + 1) (putch_on c s) (end, omega arith)
              (can.1 (ground arith)) (omega arith) same obj))
    ]
kprintf_from e (c ∷ d ∷ format) [] (suc f) p s ((at, low, high, rest), apart) can fuel same obj =
    let here : s.mem p ≡ some c = same p (omega arith) ∙ at in
    elim (Bool-cases (c == b'%')) [
      | inl percent ↦ absurd (can.0 (ground arith))
      | inr plain ↦ rw plain (
          plain-Typed e (d ∷ format) (rendered e.strings false (d ∷ format) []) [] f p c s here low
            plain
            (kprintf_from e (d ∷ format) [] f (p + 1) (putch_on c s) (rest, omega arith)
              (can.1 (ground arith)) (omega arith) same obj))
    ]
kprintf_from e (c ∷ d ∷ format) (arg ∷ args) (suc f) p s ((at, low, high, rest), apart) can fuel
      same obj =
    let here : s.mem p ≡ some c = same p (omega arith) ∙ at in
    let next : s.mem (p + 1) ≡ some d = same (p + 1) (omega arith) ∙ rest.0 in
    let more : (c == 0) ≡ false = ground arith in
    let more' : (d == 0) ≡ false = ground (arith, rest.1) in
    elim (Bool-cases (c == b'%')) [
      | inl percent ↦
          let (convertible, can') = can.0 (ground arith) in
          let shift : p + 1 + 1 ≡ p + 2 = omega arith in
          let (t, run, done) =
            convert-Typed e d arg f s convertible (omega arith) (omega arith) same obj in
          let (u, run', (done', points)) =
            kprintf_from e format args f (p + 2) t (rw shift at rest.3, omega arith) can'
              (omega arith) done.outside done.buffer in
          rw percent (
            (
              u,
              rw (load-ok s.mem p here)
                  (rw more (rw percent (rw (load-ok s.mem (p + 1) next) (rw more' (rw run run'))))),
              (
                Typed-append e (converted e.strings d arg) (rendered e.strings false format args)
                    done done',
                λ whole. points (sym (is_whole-percent c d format percent) ∙ whole),
              ),
            ))
      | inr plain ↦ rw plain (
          plain-Typed e (d ∷ format) (rendered e.strings false (d ∷ format) (arg ∷ args))
            (arg ∷ args) f p c s here low plain
            (kprintf_from e (d ∷ format) (arg ∷ args) f (p + 1) (putch_on c s) (rest, omega arith)
              (can.1 (ground arith)) (omega arith) same obj))
    ]

-- kprintf refines the rendering of its format: on a terminal in any state it ends in bounds, the
-- terminal is then as after typing the rendered text, and no byte outside the buffer has changed; the
-- cursor of the video hardware is at the terminal's place, modulo 2^16, unless the format ends in the
-- middle of a conversion. This holds for a format outside the buffer of 20 bytes, whose conversions
-- all have their arguments: numbers that fit into the buffer, and strings outside it. The fuel is more
-- than the lengths of the format and of the longest string and 20 together.
pub kprintf-Typed :
    (e : Setting) (format : List ℕ) (args : List ℕ) (f p : ℕ) (t : Terminal) (log : Log)
    → Apart e p format
    → IsPrintable e false format args
    → length format + e.limit + 20 < f
    → IsObject e.mem e.buf 20
    → let s : Console = record { mem = e.mem; terminal = t; log = log } in
      Returns
        (λ u.
          (u.terminal ≡ typed (rendered e.strings false format args) t)
          × SameOutside e.buf 20 e.mem u.mem
          × (is_whole format ≡ true → Points u))
        (kprintf f e.buf e.null_text p args s)
kprintf-Typed e format args f p t log apart can fuel obj =
    Returns-mono
      (kprintf_from e format args f p (record { mem = e.mem; terminal = t; log = log }) apart can
        fuel (λ a out. refl) obj)
      λ u (done, points). (done.terminal, done.outside, points)
