-- ===== src/Crc.antt =====
-- general/crc_check.c: the table-driven CRC of the register protocol.
pub mod Serial
pub mod Detect
mod Tests
use linux_uart.Base.{ℕ, zero, suc, ◌/◌, bit_and, bit_xor, List, [], ◌∷◌, get_or}

-- `crcTalbeAbs`
abbrev pub crc_table : List ℕ
crc_table =
    0x0000 ∷ 0xCC01 ∷ 0xD801 ∷ 0x1400 ∷ 0xF001 ∷ 0x3C00 ∷ 0x2800 ∷ 0xE401 ∷ 0xA001 ∷ 0x6C00 ∷ 0x7800
    ∷ 0xB401 ∷ 0x5000 ∷ 0x9C01 ∷ 0x8801 ∷ 0x4400 ∷ []

-- One line of the loop's body: the four low bits of `n` go in. `&` keeps the index in the table.
pub crc_nibble : ℕ → ℕ → ℕ
crc_nibble crc_val n = bit_xor (get_or crc_table (bit_and (bit_xor n crc_val) 15) 0) (crc_val / 16)

pub crc_byte : ℕ → ℕ → ℕ
crc_byte crc_val ch = crc_nibble (crc_nibble crc_val ch) (ch / 16)

-- `msg_len` rounds over the bytes at `msg`. The list is what `msg` points at; where it is shorter
-- than `msg_len` the C code reads out of bounds, which no caller does.
unfoldable pub crc16 : ℕ → List ℕ → ℕ → ℕ
unfolding crc_byte crc_nibble
crc16 init_val msg zero = init_val
crc16 init_val [] (suc n) = init_val
crc16 init_val (ch ∷ msg) (suc n) = crc16 (crc_byte init_val ch) msg n
