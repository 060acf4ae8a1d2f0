-- ===== src/Kernel/Pic/Programmed.antt =====
-- An interrupt controller as its data sheet has it, against Initialize_8259_PIC.
use free_micro_nix.Base.{
  ℕ, ◌+◌, ◌*◌, ◌/◌, ◌%◌, ◌≡◌, refl, ◌⊎◌, Bool, false, arith, ◌==◌, if◌then◌else◌,
}
use free_micro_nix.Kernel.Port.{
  Event, Bus, Log, out, inp, inb, out_word, out_double, inp_word, inp_double, lgdt, lidt, ltr, cli,
  sti, hlt, printed, colored, terminal_initialized,
}
use free_micro_nix.Kernel.Port.Device.{run, run-append, is_effect}
use free_micro_nix.Kernel.Pic.{initialize_8259_pic}

-- Which word of the initialization the data port takes next; when it is over, a mask.
pub data Stage : Type 0 where
  base_next cascade_next mode_next ready : Stage

-- The words of the initialization, and the mask. The first word says whether the controller stands
-- alone, which leaves out the word for the cascade, and whether the word for the mode follows.
pub record Controller : Type 0 where
  pub stage : Stage
  pub stands_alone : Bool
  pub takes_mode : Bool
  pub base : ℕ
  pub cascade : ℕ
  pub mode : ℕ
  pub mask : ℕ

-- The command port: a word with bit 4 starts the initialization and clears the mask; the others are
-- for the interrupts in service, and change none of this.
unfoldable pub take_command : ℕ → Controller → Controller
take_command value c =
    if value / 16 % 2 == 1
    then record c {
      stage = base_next;
      stands_alone = value / 2 % 2 == 1;
      takes_mode = value % 2 == 1;
      mask = 0;
    }
    else c

-- Where the mode may follow.
unfoldable pub before_mode : Controller → Controller
before_mode c = record c { stage = if c.takes_mode then mode_next else ready }

unfoldable pub take_data : Stage → ℕ → Controller → Controller
unfolding before_mode
take_data base_next value c =
    let based : Controller = record c { base = value } in
    if c.stands_alone then before_mode based else record based { stage = cascade_next }
take_data cascade_next value c = before_mode (record c { cascade = value })
take_data mode_next value c = record c { mode = value; stage = ready }
take_data ready value c = record c { mask = value }

-- The controller at a command port, with its data port behind it.
unfoldable pub tell : ℕ → Event → Controller → Controller
unfolding take_command take_data
tell at (out port value) c =
    if port == at
    then take_command value c
    else if port == at + 1
    then take_data c.stage value c
    else c
tell at e c = c

-- The vector that a controller gives for one of its eight lines: the base without its low three bits,
-- and the line in their place.
unfoldable pub vector : Controller → ℕ → ℕ
vector c line = c.base / 8 * 8 + line

-- A controller that is set up, in the mode of this processor; its mask does not matter.
pub record IsSetUp (first line : ℕ) (c : Controller) : Type 0 where
  pub stage : c.stage ≡ ready
  pub base : c.base ≡ first
  pub cascade : c.cascade ≡ line
  pub mode : c.mode ≡ 1

-- Whatever state the two controllers are in, Initialize_8259_PIC brings both through their whole
-- initialization: the vector bases are the low bytes of its arguments, the slave is at line 2 of the
-- master, both are in the mode of this processor, and each has the mask that it answered at the start.
pub initialize_8259_pic-IsSetUp :
    (bus : Bus) (master_base slave_base : ℕ) (log : Log) (master slave : Controller)
    → let log' = initialize_8259_pic bus master_base slave_base log in
      let master' = run (tell 0x20) log' master in
      let slave' = run (tell 0xA0) log' slave in
      let asked = (inb bus 0x21 log).1 in
      IsSetUp (master_base % 256) 4 master'
      × IsSetUp (slave_base % 256) 2 slave'
      × (master'.mask ≡ bus 0x21 log % 256)
      × (slave'.mask ≡ bus 0xA1 asked % 256)
unfolding initialize_8259_pic run tell
initialize_8259_pic-IsSetUp bus master_base slave_base log master slave = (
  simp run-append (record { stage = refl; base = refl; cascade = refl; mode = refl }),
  simp run-append (record { stage = refl; base = refl; cascade = refl; mode = refl }),
  simp run-append (omega arith),
  simp run-append (omega arith),
)

-- Only effects change the set-up.
pub tell-still :
    (at : ℕ) (e : Event) (c : Controller)
    → (at ≡ 0x20) ⊎ (at ≡ 0xA0)
    → is_effect e ≡ false
    → tell at e c ≡ c
unfolding tell is_effect take_command
tell-still at (out port value) c one none_of = ground arith
tell-still at (inp p) c one none_of = refl
tell-still at (out_word p v) c one none_of = refl
tell-still at (out_double p v) c one none_of = refl
tell-still at (inp_word p) c one none_of = refl
tell-still at (inp_double p) c one none_of = refl
tell-still at (lgdt l a) c one none_of = refl
tell-still at (lidt l a) c one none_of = refl
tell-still at (ltr s) c one none_of = refl
tell-still at cli c one none_of = refl
tell-still at sti c one none_of = refl
tell-still at hlt c one none_of = refl
tell-still at (printed f vs) c one none_of = refl
tell-still at (colored d) c one none_of = refl
tell-still at terminal_initialized c one none_of = refl
