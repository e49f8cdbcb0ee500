-- ===== src/Cpu/Gates.antt =====
-- The gates that src/cpu.rs puts into the interrupt table.
use os_test.Prelude.{
  ℕ, ◌<◌, ◌≡◌, ◌≢◌, refl, sym, ◌∙◌, true, some, length, get_elem?, set, ltb, arith, length-set,
  get_elem?-set_self, get_elem?-set_ne,
}
use os_test.Prelude.Outcome.{done}
use os_test.Idt.{Idt, IdtEntryRaw, interrupt, to_raw, insert}
use os_test.Cpu.{insert_handler, insert_handlers}

module _ (handler : ℕ → ℕ) (cs : ℕ) where
  abbrev pub gate : ℕ → IdtEntryRaw
  gate irq = to_raw (record { entry_type = interrupt (handler irq); gdt_kernel_cs = cs })

  pub insert_handler_lem :
      (irq : ℕ) (idt : Idt)
      → irq < length idt
      → insert_handler handler cs irq idt ≡ done (set idt irq (gate irq))
  unfolding insert_handler insert
  insert_handler_lem irq idt below =
      let fits : ltb irq (length idt) ≡ true = ground (arith, below) in rw fits refl

-- The gates of the three interrupts, put into a table one after the other.
module _ (handler : ℕ → ℕ) (cs : ℕ) (idt : Idt) (room : 35 < length idt) where
  abbrev with_33 : Idt
  with_33 = set idt 33 (gate handler cs 33)

  abbrev with_34 : Idt
  with_34 = set with_33 34 (gate handler cs 34)

  abbrev pub with_gates : Idt
  with_gates = set with_34 35 (gate handler cs 35)

  room_33 : 34 < length with_33
  room_33 = omega (arith, room, length-set idt 33 (gate handler cs 33))

  room_34 : 35 < length with_34
  room_34 = omega (
    arith,
    room,
    length-set idt 33 (gate handler cs 33),
    length-set with_33 34 (gate handler cs 34),
  )

  pub with_gates-other :
      (irq : ℕ) → irq ≢ 33 → irq ≢ 34 → irq ≢ 35 → get_elem? with_gates irq ≡ get_elem? idt irq
  with_gates-other irq a b c =
      get_elem?-set_ne with_34 (gate handler cs 35) (λ h. c (sym h))
      ∙ get_elem?-set_ne with_33 (gate handler cs 34) (λ h. b (sym h))
      ∙ get_elem?-set_ne idt (gate handler cs 33) (λ h. a (sym h))

  pub with_gates-gate :
      (get_elem? with_gates 33 ≡ some (gate handler cs 33))
      × (get_elem? with_gates 34 ≡ some (gate handler cs 34))
      × (get_elem? with_gates 35 ≡ some (gate handler cs 35))
  with_gates-gate = (
    get_elem?-set_ne with_34 {i = 35} {j = 33} (gate handler cs 35) (λ h. omega (arith, h))
        ∙ get_elem?-set_ne with_33 {i = 34} {j = 33} (gate handler cs 34) (λ h. omega (arith, h))
        ∙ get_elem?-set_self idt 33 (gate handler cs 33) (omega (arith, room)),
    get_elem?-set_ne with_34 {i = 35} {j = 34} (gate handler cs 35) (λ h. omega (arith, h))
        ∙ get_elem?-set_self with_33 34 (gate handler cs 34) room_33,
    get_elem?-set_self with_34 35 (gate handler cs 35) room_34,
  )

pub insert_handlers_lem :
    (handler : ℕ → ℕ) (cs : ℕ) (idt : Idt) (room : 35 < length idt)
    → insert_handlers handler cs idt ≡ done (with_gates handler cs idt room)
unfolding insert_handlers
insert_handlers_lem handler cs idt room =
    rw
      (
        insert_handler_lem handler cs 33 idt (omega (arith, room)),
        insert_handler_lem handler cs 34 (with_33 handler cs idt room)
            (room_33 handler cs idt room),
      )
      (insert_handler_lem handler cs 35 (with_34 handler cs idt room) (room_34 handler cs idt room))
