-- ===== src/Kernel/Interrupt.antt =====
-- kernel/x86/isa/interrupt/interrupt.c: the table of routines and the dispatch of an interrupt, with
-- the routines that the kernel installs: those of kernel/x86/isa/8254.c and kernel/x86/rtc.c, and the
-- two mode switches.
pub mod Dispatch
pub mod Clock
pub mod Syscall
pub mod Exception
pub mod Switch
pub mod Resumed
use free_micro_nix.Base.{
  ℕ, ◌+◌, ◌-◌, ◌%◌, bit_and, bit_or, Bool, not, ◌&&◌, Option, none, some, [], ◌∷◌, ◌++◌, ltb, leb,
  ◌==◌, if◌then◌else◌, Run, ok, fault, u8, u32, u64, ◌<<◌, ◌>>=◌,
}
use Prim.Native.String.{String}
use free_micro_nix.Kernel.Vga.{color_code, light_red}
use free_micro_nix.Kernel.Port.{
  Bus, Log, hlt, cli, sti, printed, outb, inb, record_event, say, colored,
}
use free_micro_nix.Kernel.Pic.{
  pic_read_isr_register, pic_eoi_master, pic_eoi_slave, enable_8259_pic, disable_8259_pic,
}

-- The registers that the stubs push.
pub record Context : Type 0 where
  pub gs : ℕ
  pub fs : ℕ
  pub es : ℕ
  pub ds : ℕ
  pub edi : ℕ
  pub esi : ℕ
  pub ebp : ℕ
  pub esp : ℕ
  pub ebx : ℕ
  pub edx : ℕ
  pub ecx : ℕ
  pub eax : ℕ
  pub int_no : ℕ
  pub err_code : ℕ
  pub eip : ℕ
  pub cs : ℕ
  pub eflags : ℕ
  pub useresp : ℕ
  pub ss : ℕ

-- The functions of the source that are installed as routines.
pub data Routine : Type 0 where
  pit_8254_handler rtc_handler stu_handler stk_handler : Routine

-- The globals that an interrupt touches; `routines` is `Interrupt_Routines`, with `none` for 0.
pub record System : Type 0 where
  pub routines : ℕ → Option Routine
  pub timer_ticks : ℕ
  pub timer_seconds : ℕ
  pub rtc_ticks : ℕ
  pub log : Log

abbrev pub irq0 : ℕ
irq0 = 32

abbrev pub irq7 : ℕ
irq7 = 39

abbrev pub irq8 : ℕ
irq8 = 40

abbrev pub irq15 : ℕ
irq15 = 47

-- `GD_KTEXT | DPL_KERNEL` and so on; USER_DS is made of GD_KDATA.
abbrev pub kernel_cs : ℕ
kernel_cs = bit_or (1 << 3) 0

abbrev pub kernel_ds : ℕ
kernel_ds = bit_or (2 << 3) 0

abbrev pub user_cs : ℕ
user_cs = bit_or (3 << 3) 3

abbrev pub user_ds : ℕ
user_ds = bit_or (2 << 3) 3

-- The table has 256 places; an index behind them is a fault.
unfoldable pub install_interrupt_handler : ℕ → Option Routine → System → Run System
install_interrupt_handler index handler s =
    if ltb index 256
    then ok (record s { routines = λ i. if i == index then handler else s.routines i })
    else fault

unfoldable pub uninstall_interrupt_handler : ℕ → System → Run System
unfolding install_interrupt_handler
uninstall_interrupt_handler index = install_interrupt_handler index none

unfoldable pub install_syscall_handler : System → Run System
unfolding install_interrupt_handler
install_syscall_handler s = do
  s ← install_interrupt_handler 120 (some stu_handler) s
  install_interrupt_handler 121 (some stk_handler) s

unfoldable pub stu : Context → Context
stu c =
    if not (bit_and c.int_no 0x03 == 3)
    then record c {
      gs = user_ds;
      es = user_ds;
      fs = user_ds;
      ds = user_ds;
      ss = user_ds;
      cs = user_cs;
      eflags = u32 (bit_or c.eflags 0x0000_3000);
    }
    else c

unfoldable pub stk : Context → Context
stk c =
    if not (bit_and c.int_no 0x03 == 0)
    then record c {
      gs = kernel_ds;
      es = kernel_ds;
      fs = kernel_ds;
      ds = kernel_ds;
      ss = kernel_ds;
      cs = kernel_cs;
    }
    else c

-- `timer_ticks` is 64 bits wide.
unfoldable pub tick : System → System
tick s =
    let ticks = u64 (s.timer_ticks + 1) in
    record s {
      timer_ticks = ticks;
      timer_seconds = if ticks % 1000 == 0 then u64 (s.timer_seconds + 1) else s.timer_seconds;
    }

module _ (bus : Bus) where
  unfoldable pub rtc_tick : System → System
  rtc_tick s = record s {
    rtc_ticks = u32 (s.rtc_ticks + 1);
    log = (inb bus 0x71 (outb 0x70 0x0C s.log)).1;
  }

  -- `handler(int_ctx)`
  unfoldable pub call : Routine → Context → System → Context × System
  call pit_8254_handler c s = (c, tick s)
  call rtc_handler c s = (c, rtc_tick s)
  call stu_handler c s = (stu c, record s { log = say "Switching to user mode\n" s.log })
  call stk_handler c s = (stk c, record s { log = say "Switching to kernel mode\n" s.log })

  -- `if (handler) handler(int_ctx);`
  unfoldable pub call_if : Option Routine → Context → System → Context × System
  unfolding call
  call_if none c s = (c, s)
  call_if (some handler) c s = call handler c s

  -- `(PIC_Read_ISR() & (1 << bit)) == 0`, and the log behind it
  unfoldable pub spurious : ℕ → Log → Bool × Log
  spurious bit log =
      let (isr, log) = pic_read_isr_register bus log in (bit_and isr (1 << bit) == 0, log)

  -- The part of IRQ_Handler behind the two tests for a spurious interrupt.
  unfoldable pub serve : Context → System → Context × System
  unfolding call_if
  serve c s =
      let (c', t) = call_if (s.routines c.int_no) c s in
      let slave = if leb irq8 c'.int_no then pic_eoi_slave t.log else t.log in
      (c', record t { log = pic_eoi_master slave })

  unfoldable pub irq_handler : Context → System → Context × System
  unfolding spurious serve
  irq_handler c s =
      if c.int_no == irq7
      then (let (lost, log) = spurious 7 s.log in
          let t = record s { log = log } in if lost then (c, t) else serve c t)
      else if c.int_no == irq15
      then (let (lost, log) = spurious 15 s.log in
          let t = record s { log = log } in
          if lost then (c, record t { log = pic_eoi_master log }) else serve c t)
      else serve c s

abbrev pub color_light_red : ℕ
color_light_red = color_code light_red

-- kernel/kernel/panic.c, up to its loop, which halts for ever.
unfoldable pub panic : Log → Log
panic log = say "\nKernel Panic!\n" log

-- What the kernel says on an exception; `exception_messages` gives the addresses of the texts. The
-- fourth format asks for three words and is passed none.
unfoldable pub exception_log : (ℕ → ℕ) → Context → Log → Log
unfolding panic
exception_log exception_messages c log = panic (
    log
    ++ colored color_light_red
      ∷ printed "Exception %x: %s (code %x)\n"
          (c.int_no ∷ exception_messages c.int_no ∷ c.err_code ∷ [])
      ∷ printed "\nDumping Segment Registers:\n cs: %x ss: %x ds: %x" (c.cs ∷ c.ss ∷ c.ds ∷ [])
      ∷ printed
          "\nDumping General Purpose Registers:\n edi: %x esi: %x ebp: %x ebx: %x edx: %x ecx: %x eax: %x"
          (c.edi ∷ c.esi ∷ c.ebp ∷ c.ebx ∷ c.edx ∷ c.ecx ∷ c.eax ∷ [])
      ∷ printed "\nDumping Other Registers:\n eip: %x eflags: %x useresp: %x" []
      ∷ [])

-- `vaddr` is what the processor holds in `cr2`.
unfoldable pub page_fault_log : ℕ → Log → Log
unfolding panic
page_fault_log vaddr log =
    panic (record_event (printed "interrupt: page fault at %x\n" (vaddr ∷ [])) log)

unfoldable pub disable_interrupts : Log → Log
disable_interrupts = record_event cli

unfoldable pub enable_interrupts : Log → Log
enable_interrupts = record_event sti

unfoldable pub pause_interrupts : Log → Log
pause_interrupts log = record_event hlt (record_event sti log)

-- How a handler ends: it returns to the stub, or the kernel stays halted for ever.
pub data Exit : Type 0 where
  back : Context → System → Exit
  halted : System → Exit

-- `Interrupt_Handler`, with `Exception_Handler` and its `panic` in the first branch.
unfoldable pub interrupt_handler : Bus → (ℕ → ℕ) → Context → System → Exit
unfolding irq_handler exception_log
interrupt_handler bus exception_messages c s =
    if ltb c.int_no 32
    then halted (record s { log = exception_log exception_messages c s.log })
    else if leb 32 c.int_no && ltb c.int_no 48
    then (let (c', t) = irq_handler bus c s in back c' t)
    else back c s

unfoldable pub enable_interrupt : Bus → ℕ → Log → Log
enable_interrupt bus irq log = if ltb irq 32 then log else enable_8259_pic bus (u8 (irq - 32)) log

unfoldable pub disable_interrupt : Bus → ℕ → Log → Log
disable_interrupt bus irq log = if ltb irq 32 then log else disable_8259_pic bus (u8 (irq - 32)) log
