-- ===== src/Exceptions.antt =====
-- kernel/int_handler.c: the message on an exception.
pub mod Lines
pub mod Shown
mod Tests
use operator_system.Common.{
  ℕ, zero, suc, ◌+◌, ◌-◌, ◌*◌, ◌/◌, ◌%◌, ◌^◌, Option, some, List, [], ◌∷◌, ltb, if◌then◌else◌,
  get_or,
}
use operator_system.Common.Steps.{◌>>=◌}
use operator_system.Console.{Console}
use operator_system.Tty.{Tty}
use operator_system.Print.{Arguments, printk}

-- the bytes of a text of `n` bytes, given as a number with the first byte lowest
abbrev bytes : (n text : ℕ) → List ℕ
bytes zero text = []
bytes (suc n) text = text % 2 ^ 8 ∷ bytes n (text / 2 ^ 8)

-- err_description
abbrev pub err_description : List (List ℕ)
err_description =
    -- #DE Divide Error
    bytes 16 0x726F7272452065646976694420454423
    -- #DB RESERVED
    ∷ bytes 12 0x444556524553455220424423
    -- - NMI Interrupt
    ∷ bytes 15 0x747075727265746E4920494D4E202D
    -- #BP Breakpoint
    ∷ bytes 14 0x746E696F706B6165724220504223
    -- #OF Overflow
    ∷ bytes 12 0x776F6C667265764F20464F23
    -- #BR BOUND Range Exception
    ∷ bytes 25 0x6E6F697470656378452065676E615220444E554F4220524223
    -- #UD Invalid Opcode {Undefined Opcode}
    ∷ bytes 37 0x7D65646F63704F2064656E696665646E557B2065646F63704F2064696C61766E4920445523
    -- #NM Device not Available {No Math Coprocessor}
    ∷ bytes 46
        0x7D726F737365636F72706F43206874614D206F4E7B20656C62616C6961764120746F6E20656369766544204D4E23
    -- #DF Double Fault
    ∷ bytes 16 0x746C75614620656C62756F4420464423
    -- Coprocessor Segment Overrun {reserved}
    ∷ bytes 38 0x7D64657672657365727B206E75727265764F20746E656D67655320726F737365636F72706F43
    -- #TS Invalid TSS
    ∷ bytes 15 0x5353542064696C61766E4920535423
    -- #NP Segment Not Present
    ∷ bytes 23 0x746E657365725020746F4E20746E656D67655320504E23
    -- #SS Stack-Segment Fault
    ∷ bytes 23 0x746C75614620746E656D6765532D6B6361745320535323
    -- #GP General Protection
    ∷ bytes 22 0x6E6F69746365746F7250206C6172656E654720504723
    -- #PF Page Fault
    ∷ bytes 14 0x746C756146206567615020465023
    -- - {Intel reserved. Do Notuse}
    ∷ bytes 29 0x7D657375746F4E206F44202E6465767265736572206C65746E497B202D
    -- #MF x87 FPU Floating-Poing Error {Math Fault}
    ∷ bytes 45
        0x7D746C756146206874614D7B20726F72724520676E696F502D676E6974616F6C46205550462037387820464D23
    -- #AC Alignment Check
    ∷ bytes 19 0x6B6365684320746E656D6E67696C4120434123
    -- #MC Machine Check
    ∷ bytes 17 0x6B6365684320656E696863614D20434D23
    -- #XF SIMD Floating-Poing Exception
    ∷ bytes 33 0x6E6F6974706563784520676E696F502D676E6974616F6C4620444D495320465823
    ∷ []

-- the formats of the messages
abbrev pub exception_line : List ℕ
exception_line = bytes 18 0xA7325203E2D2D20216E6F69747065637845

abbrev vector_line : List ℕ
vector_line = bytes 10 0xA58253A726F74636556

abbrev code_line : List ℕ
code_line = bytes 14 0xA58253A65646F6320726F727245

abbrev eip_line : List ℕ
eip_line = bytes 7 0xA58253A504945

abbrev cs_line : List ℕ
cs_line = bytes 6 0xA58253A5343

abbrev eflags_line : List ℕ
eflags_line = bytes 10 0xA58253A5347414C4645

-- the strings in memory with `err_description` at `place`, an array of rows of 64 bytes
abbrev pub described : (place : ℕ) → Arguments → Arguments
described place m = record m {
  text = λ a.
      if ltb a place
      then m.text a
      else if ltb a (place + 64 * 20)
      then get_or err_description ((a - place) / 64) []
      else m.text a;
}

-- a call of printk: the argument, with what is in memory, and the format
abbrev pub Message : Type 0
Message = Arguments × List ℕ

abbrev say : Arguments → (fmt : List ℕ) → (argument : ℕ) → Message
say m fmt argument = (record m { arg = λ _. argument }, fmt)

-- the calls of printk in syserrHandler, whose array of descriptions is at `place` on its stack. A row's
-- address is the only one that it passes on.
unfoldable pub messages : Arguments → (place err_no err_code eip cs eflags : ℕ) → List Message
messages m place err_no err_code eip cs eflags =
    say (described place m) exception_line ((place + 64 * err_no) % 2 ^ 32)
    ∷ say m vector_line err_no
    ∷ say m code_line err_code
    ∷ say m eip_line eip
    ∷ say m cs_line cs
    ∷ say m eflags_line eflags
    ∷ []

-- calls of printk in a row; `none` where the rounds of one run out
unfoldable pub print_all : (fuel : ℕ) → List Message → Tty → Console → Option (Tty × Console)
print_all fuel [] tty c = some (tty, c)
print_all fuel ((m, fmt) ∷ ms) tty c =
    printk fuel m fmt tty c >>= λ (n, tty', c'). print_all fuel ms tty' c'

-- syserrHandler
unfoldable pub syserr_handler :
    (fuel : ℕ)
    → Arguments
    → (place err_no err_code eip cs eflags : ℕ) → Tty
    → Console
    → Option (Tty × Console)
syserr_handler fuel m place err_no err_code eip cs eflags tty c =
    print_all fuel (messages m place err_no err_code eip cs eflags) tty c
