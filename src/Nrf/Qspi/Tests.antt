-- ===== src/Nrf/Qspi/Tests.antt =====
-- The theorems on the flash commands with a controller that is its mask, and runs of the code.
use embassy.Base.{
  ℕ, ◌≤◌, ◌<◌, min, ◌≡◌, refl, ◌⊎◌, Bool, true, false, none, some, List, [], ◌∷◌, arith,
}
use embassy.Executor.{new_header, System, new_system}
use embassy.Interrupt.{Nvic, MaskLaws}
use embassy.Nrf.Qspi.{custom, Qspi, Command, erase, custom_instruction, response, begin}
use embassy.Nrf.Qspi.Bytes.{response_lem}
use embassy.Nrf.Qspi.Chip.{Memory, Chip}

abbrev one_bit : Nvic Bool
one_bit = record { mask = λ b. false; unmask = λ b. true; unpend = λ b. b; is_enabled = λ b. b }

abbrev one_bit-MaskLaws : MaskLaws one_bit
one_bit-MaskLaws = record { masked = λ b. refl; unmasked = λ b. refl }

abbrev enabled : Qspi Bool
enabled = record {
  events_ready = false;
  ready_enabled = false;
  read_src = 0;
  read_dst = 0;
  read_cnt = 0;
  write_src = 0;
  write_dst = 0;
  write_cnt = 0;
  erase_ptr = 0;
  erase_len = 0;
  cinstrdat0 = 0;
  cinstrdat1 = 0;
  opcode = 0;
  cinstr_length = 0;
  task = none;
  irq = record { func = none; ctx = none; controller = false };
}

abbrev running : System
running = record new_system { headers = λ t. record new_header { spawned = true } }

-- Six bytes are asked for: the last two come first, and their places stay as they were.
abbrev six : List ℕ
six = 0 ∷ 0 ∷ 0 ∷ 0 ∷ 0 ∷ 0 ∷ []

response_lem_example :
    ((6 ≤ 4) × (response 0x04030201 0x0605 six ≡ 1 ∷ 2 ∷ 3 ∷ 4 ∷ []))
    ⊎ ((4 < 6) × (response 0x04030201 0x0605 six ≡ 5 ∷ 6 ∷ 3 ∷ 4 ∷ 0 ∷ 0 ∷ []))
response_lem_example = response_lem 0x04030201 0x0605 six (omega arith)

abbrev read_id : Command
read_id = custom_instruction 0x9F (1 ∷ 2 ∷ []) (0 ∷ 0 ∷ 0 ∷ [])

abbrev asked : Qspi Bool
asked = record enabled {
  ready_enabled = true;
  cinstrdat0 = 0x201;
  opcode = 0x9F;
  cinstr_length = 4;
  task = some custom;
}

-- An erase that is not at a page is a panic.
erase_off_page : begin one_bit (erase 4) enabled ≡ none
unfolding begin
erase_off_page = refl

-- A chip that clears bits when it writes, and answers its identity to every instruction.
abbrev nor : Chip
nor = record { program = λ old new. min old new; exec = λ opcode len dat0 dat1 m. (0x40EF, 0, m) }

abbrev blank : Memory
blank = record { ram = λ a. 0; flash = λ a. 0xFF }
