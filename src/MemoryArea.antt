-- ===== src/MemoryArea.antt =====
-- fins/memory_area.go: the codes of the memory areas.
use omron_hostlink_fins.Common.{ℕ}

abbrev pub memory_area_cio_bit : ℕ
memory_area_cio_bit = 0x30

abbrev pub memory_area_wr_bit : ℕ
memory_area_wr_bit = 0x31

abbrev pub memory_area_hr_bit : ℕ
memory_area_hr_bit = 0x32

abbrev pub memory_area_ar_bit : ℕ
memory_area_ar_bit = 0x33

abbrev pub memory_area_cio_word : ℕ
memory_area_cio_word = 0xb0

abbrev pub memory_area_wr_word : ℕ
memory_area_wr_word = 0xb1

abbrev pub memory_area_hr_word : ℕ
memory_area_hr_word = 0xb2

abbrev pub memory_area_ar_word : ℕ
memory_area_ar_word = 0xb3

abbrev pub memory_area_timer_counter_completion_flag : ℕ
memory_area_timer_counter_completion_flag = 0x09

abbrev pub memory_area_timer_counter_pv : ℕ
memory_area_timer_counter_pv = 0x89

abbrev pub memory_area_dm_bit : ℕ
memory_area_dm_bit = 0x02

abbrev pub memory_area_dm_word : ℕ
memory_area_dm_word = 0x82

abbrev pub memory_area_task_bit : ℕ
memory_area_task_bit = 0x06

abbrev pub memory_area_task_status : ℕ
memory_area_task_status = 0x46

abbrev pub memory_area_index_register_pv : ℕ
memory_area_index_register_pv = 0xdc

abbrev pub memory_area_data_register_pv : ℕ
memory_area_data_register_pv = 0xbc

abbrev pub memory_area_clock_pulses_condition_flags_bit : ℕ
memory_area_clock_pulses_condition_flags_bit = 0x07
