-- ===== src/Kernel/Port/Visible.antt =====
-- What of a log is to be seen on the screen.
use free_micro_nix.Base.{ℕ, ◌≡◌, refl, sym, ap, ◌∙◌, List, [], ◌∷◌, ◌++◌}
use Prim.Native.String.{String}
use mathlib.Core.List.{append_assoc}
use free_micro_nix.Kernel.Port.{
  Log, Event, printed, colored, terminal_initialized, out, inp, lgdt, lidt, ltr, out_word,
  out_double, inp_word, inp_double, cli, sti, hlt,
}

unfoldable pub visible_of : Event → Log
visible_of (printed format args) = printed format args ∷ []
visible_of (colored c) = colored c ∷ []
visible_of terminal_initialized = terminal_initialized ∷ []
visible_of e = []

-- The events that change the screen, in order.
unfoldable pub visible : Log → Log
unfolding visible_of
visible [] = []
visible (e ∷ log) = visible_of e ++ visible log

pub visible-append : (log more : Log) → visible (log ++ more) ≡ visible log ++ visible more
unfolding visible
visible-append [] more = refl
visible-append (e ∷ log) more =
    ap (λ es. visible_of e ++ es) (visible-append log more)
    ∙ sym (append_assoc (visible_of e) (visible log) (visible more))

-- The format and the arguments of a call of kprintf.
abbrev pub Message : Type 0
Message = String × List ℕ

unfoldable message_of : Event → List Message
message_of (printed format args) = (format, args) ∷ []
message_of e = []

-- All calls of kprintf, in order.
unfoldable pub messages : Log → List Message
unfolding message_of
messages [] = []
messages (e ∷ log) = message_of e ++ messages log

pub messages-append : (log more : Log) → messages (log ++ more) ≡ messages log ++ messages more
unfolding messages
messages-append [] more = refl
messages-append (e ∷ log) more =
    ap (λ ms. message_of e ++ ms) (messages-append log more)
    ∙ sym (append_assoc (message_of e) (messages log) (messages more))

messages_of-visible : (e : Event) → messages (visible_of e) ≡ message_of e
unfolding visible_of messages
messages_of-visible (printed format args) = refl
messages_of-visible (colored c) = refl
messages_of-visible terminal_initialized = refl
messages_of-visible (out p v) = refl
messages_of-visible (inp p) = refl
messages_of-visible (lgdt l a) = refl
messages_of-visible (lidt l a) = refl
messages_of-visible (ltr s) = refl
messages_of-visible (out_word p v) = refl
messages_of-visible (out_double p v) = refl
messages_of-visible (inp_word p) = refl
messages_of-visible (inp_double p) = refl
messages_of-visible cli = refl
messages_of-visible sti = refl
messages_of-visible hlt = refl

-- The messages are among what is to be seen.
pub messages-visible : (log : Log) → messages (visible log) ≡ messages log
unfolding messages visible
messages-visible [] = refl
messages-visible (e ∷ log) =
    messages-append (visible_of e) (visible log)
    ∙ ap (λ ms. ms ++ messages (visible log)) (messages_of-visible e)
    ∙ ap (λ ms. message_of e ++ ms) (messages-visible log)
