-- ===== src/Base/Machine.antt =====
-- Machine words and the memory layout: inc/memlayout.h, inc/mmu.h and the constants of inc/param.h.
use uw_cse451_operating_syst.Base.{ℕ, ◌+◌, ◌-◌, ◌*◌, ◌/◌, ◌%◌, ◌^◌, ltb, leb, Bool, if◌then◌else◌}

abbrev pub u64_mod : ℕ
u64_mod = 2 ^ 64

abbrev pub u32_mod : ℕ
u32_mod = 2 ^ 32

abbrev pub add64 : ℕ → ℕ → ℕ
add64 a b = (a + b) % 2 ^ 64

-- `-` on ℕ stops at 0, so the modulus is added first.
abbrev pub sub64 : ℕ → ℕ → ℕ
sub64 a b = (a + 2 ^ 64 - b) % 2 ^ 64

-- An `int` product converted to `uint64_t`: 32 bits, sign-extended.
abbrev pub int_to_u64 : ℕ → ℕ
int_to_u64 n = let low = n % 2 ^ 32 in if ltb low (2 ^ 31) then low else low + (2 ^ 64 - 2 ^ 32)

abbrev pub page_size : ℕ
page_size = 4096

abbrev pub kern_base : ℕ
kern_base = 0xFFFFFFFF80000000

-- V2P and P2V
abbrev pub to_physical : ℕ → ℕ
to_physical v = sub64 v kern_base

abbrev pub to_virtual : ℕ → ℕ
to_virtual p = add64 p kern_base

-- PGNUM
abbrev pub page_number : ℕ → ℕ
page_number a = a / 4096

-- PGROUNDUP on `uint64_t`: the mask clears the low twelve bits.
abbrev pub page_round_up : ℕ → ℕ
page_round_up a = add64 a 4095 / 4096 * 4096

-- PGROUNDUP on an `int` that is given by its 32 bits, as the 64-bit word that it is stored to.
abbrev pub int_round_up : ℕ → ℕ
int_round_up a = int_to_u64 ((a + 4095) % 2 ^ 32 / 4096 * 4096)

-- An `int` that is given by its 32 bits.
abbrev pub minus_one : ℕ
minus_one = 2 ^ 32 - 1

abbrev pub is_negative : ℕ → Bool
is_negative w = leb (2 ^ 31) w
