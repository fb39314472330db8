-- ===== src/Crc/Tests.antt =====
-- Runs of `crc16`, and its theorems at concrete inputs.
use linux_uart.Base.{ℕ, ◌≡◌, refl, List, [], ◌∷◌}
use linux_uart.Crc.{crc16}
use linux_uart.Crc.Serial.{shift_message, crc16-eq-shift_message}

abbrev check_message : List ℕ
check_message = b'1' ∷ b'2' ∷ b'3' ∷ b'4' ∷ b'5' ∷ b'6' ∷ b'7' ∷ b'8' ∷ b'9' ∷ []

-- The check value of CRC-16/MODBUS.
crc16_check : crc16 0xffff check_message 9 ≡ 0x4B37
unfolding crc16
crc16_check = refl

crc16-eq-shift_message_example : crc16 0xffff check_message 9 ≡ shift_message 0xffff check_message
crc16-eq-shift_message_example = crc16-eq-shift_message 0xffff check_message
