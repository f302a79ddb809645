-- ===== src/CommandCode.antt =====
-- fins/command_code.go: the named command codes and their values.
use omron_hostlink_fins.Common.{ℕ}

pub data CommandCode : Type 0 where
  memory_area_read : CommandCode
  memory_area_write : CommandCode
  memory_area_fill : CommandCode
  multiple_memory_area_read : CommandCode
  memory_area_transfer : CommandCode
  parameter_area_read : CommandCode
  parameter_area_write : CommandCode
  parameter_area_clear : CommandCode
  program_area_read : CommandCode
  program_area_write : CommandCode
  program_area_clear : CommandCode
  run : CommandCode
  stop : CommandCode
  cpu_unit_data_read : CommandCode
  connection_data_read : CommandCode
  cpu_unit_status_read : CommandCode
  cycle_time_read : CommandCode
  clock_read : CommandCode
  clock_write : CommandCode
  message_read_clear : CommandCode
  access_right_acquire : CommandCode
  access_right_forced_acquire : CommandCode
  access_right_release : CommandCode
  error_clear : CommandCode
  error_log_read : CommandCode
  error_log_clear : CommandCode
  fins_write_access_log_read : CommandCode
  fins_write_access_log_write : CommandCode
  file_name_read : CommandCode
  single_file_read : CommandCode
  single_file_write : CommandCode
  file_memory_format : CommandCode
  file_delete : CommandCode
  file_copy : CommandCode
  file_name_change : CommandCode
  memory_area_file_transfer : CommandCode
  parameter_area_file_transfer : CommandCode
  program_area_file_transfer : CommandCode
  directory_create_delete : CommandCode
  memory_cassette_transfer : CommandCode
  forced_set_reset : CommandCode
  forced_set_reset_cancel : CommandCode
  convert_to_compo_wayf_command : CommandCode
  convert_to_modbus_rtu_command : CommandCode
  convert_to_modbus_ascii_command : CommandCode

abbrev pub command_code_value : CommandCode → ℕ
command_code_value memory_area_read = 0x0101
command_code_value memory_area_write = 0x0102
command_code_value memory_area_fill = 0x0103
command_code_value multiple_memory_area_read = 0x0104
command_code_value memory_area_transfer = 0x0105
command_code_value parameter_area_read = 0x0201
command_code_value parameter_area_write = 0x0202
command_code_value parameter_area_clear = 0x0203
command_code_value program_area_read = 0x0301
command_code_value program_area_write = 0x0302
command_code_value program_area_clear = 0x0303
command_code_value run = 0x0401
command_code_value stop = 0x0402
command_code_value cpu_unit_data_read = 0x0501
command_code_value connection_data_read = 0x0502
command_code_value cpu_unit_status_read = 0x0601
command_code_value cycle_time_read = 0x0620
command_code_value clock_read = 0x701
command_code_value clock_write = 0x702
command_code_value message_read_clear = 0x0920
command_code_value access_right_acquire = 0x0c01
command_code_value access_right_forced_acquire = 0x0c02
command_code_value access_right_release = 0x0c03
command_code_value error_clear = 0x2101
command_code_value error_log_read = 0x2102
command_code_value error_log_clear = 0x2103
command_code_value fins_write_access_log_read = 0x2140
command_code_value fins_write_access_log_write = 0x2141
command_code_value file_name_read = 0x2101
command_code_value single_file_read = 0x2102
command_code_value single_file_write = 0x2103
command_code_value file_memory_format = 0x2104
command_code_value file_delete = 0x2105
command_code_value file_copy = 0x2107
command_code_value file_name_change = 0x2108
command_code_value memory_area_file_transfer = 0x210a
command_code_value parameter_area_file_transfer = 0x210b
command_code_value program_area_file_transfer = 0x210b
command_code_value directory_create_delete = 0x2115
command_code_value memory_cassette_transfer = 0x2120
command_code_value forced_set_reset = 0x2301
command_code_value forced_set_reset_cancel = 0x2302
command_code_value convert_to_compo_wayf_command = 0x2803
command_code_value convert_to_modbus_rtu_command = 0x2804
command_code_value convert_to_modbus_ascii_command = 0x2805
