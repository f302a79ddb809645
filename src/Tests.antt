-- ===== src/Tests.antt =====
-- Concrete inputs at which the theorems' hypotheses hold.
pub mod Codecs
pub mod Simulator
pub mod Clients
pub mod Sessions
pub mod Channels
pub mod Data
pub mod Memory
use omron_hostlink_fins.Address.{FinsAddress}
use omron_hostlink_fins.Client.{Client, new_client}
use omron_hostlink_fins.Common.{All, List, [], arith, length-replicate, refl, replicate, ℕ}
use omron_hostlink_fins.Common.{◌∷◌}
use omron_hostlink_fins.Common.Words.{IsUint16}
use omron_hostlink_fins.Driver.Commands.{MemoryAddress}
use omron_hostlink_fins.Header.{Header, default_command_header}
use omron_hostlink_fins.MemoryArea.{memory_area_dm_bit, memory_area_dm_word}
use omron_hostlink_fins.Server.{Loop, dm_area_size, new_plc_simulator, server_buf_size}
use omron_hostlink_fins.Session.{IsReady}

abbrev pub pc_node : FinsAddress
pc_node = record { network = 0; node = 34; unit = 0 }

abbrev pub plc_node : FinsAddress
plc_node = record { network = 0; node = 10; unit = 0 }

-- The header of a command with service id 7.
abbrev pub sample_header : Header
sample_header = default_command_header pc_node plc_node 7

abbrev pub two_words : List ℕ
two_words = 0x1234 ∷ 0xFFFF ∷ []

abbrev pub two_bytes : List ℕ
two_bytes = 0xAB ∷ 0xCD ∷ []

abbrev pub eight_bytes : List ℕ
eight_bytes = 1 ∷ 2 ∷ 3 ∷ 4 ∷ 5 ∷ 6 ∷ 7 ∷ 8 ∷ []

abbrev pub dm_100 : MemoryAddress
dm_100 = record { memory_area = memory_area_dm_word; address = 100; bit_offset = 0 }

abbrev pub nine_bytes : List ℕ
nine_bytes = 0 ∷ eight_bytes

abbrev pub four_bytes : List ℕ
four_bytes = 0x11 ∷ 0x22 ∷ 0x33 ∷ 0x44 ∷ []

pub two_words-IsUint16 : All IsUint16 two_words
two_words-IsUint16 = (omega arith, (omega arith, tt))

abbrev pub dm_65000 : MemoryAddress
dm_65000 = record { memory_area = memory_area_dm_word; address = 65000; bit_offset = 0 }

abbrev pub last_bits : MemoryAddress
last_bits = record { memory_area = memory_area_dm_bit; address = 32767; bit_offset = 15 }

-- A client and a simulator that have just started.
abbrev pub started_client : Client
started_client = new_client pc_node plc_node

abbrev pub started_loop : Loop
started_loop = record { server = new_plc_simulator; buf = replicate server_buf_size 0 }

pub started-IsReady : IsReady started_client started_loop
unfolding new_client
started-IsReady = record {
  live = refl;
  room = length-replicate {A = ℕ} server_buf_size 0;
  sized = record {
    words = length-replicate {A = ℕ} dm_area_size 0;
    bits = length-replicate {A = ℕ} dm_area_size 0;
  };
}
