-- ===== src/UdpClient/Clock.antt =====
-- fins/client_udp.go: what `ReadClock` makes of six bytes, whatever they are.
use omron_hostlink_fins.Client.{Client}
use omron_hostlink_fins.Common.{if◌then◌else◌}
use omron_hostlink_fins.Common.{ltb}
use omron_hostlink_fins.Common.{ℕ, ◌%◌, ◌*◌, ◌+◌, ◌/◌, ◌==◌}

-- The number of a byte that a clock field takes: two decimal digits, or one with the nibble 0x0f
-- behind it, and 0 for any other byte.
abbrev pub field_number : ℕ → ℕ
field_number b =
    if ltb 9 (b / 16)
    then 0
    else if ltb (b % 16) 10
    then b / 16 * 10 + b % 16
    else if b % 16 == 15
    then b / 16
    else 0
