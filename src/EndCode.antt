-- ===== src/EndCode.antt =====
-- fins/end_code.go: the named end codes and their values.
use omron_hostlink_fins.Common.{ℕ}

pub data EndCode : Type 0 where
  normal_completion : EndCode
  service_interrupted : EndCode
  local_node_not_in_network : EndCode
  token_timeout : EndCode
  retries_failed : EndCode
  too_many_send_frames : EndCode
  node_address_range_error : EndCode
  node_address_range_duplication : EndCode
  destination_node_not_in_network : EndCode
  unit_missing : EndCode
  third_node_missing : EndCode
  destination_node_busy : EndCode
  response_timeout : EndCode
  communications_controller_error : EndCode
  cpu_unit_error : EndCode
  controller_error : EndCode
  unit_number_error : EndCode
  undefined_command : EndCode
  not_supported_by_model_version : EndCode
  destination_address_setting_error : EndCode
  no_routing_tables : EndCode
  routing_table_error : EndCode
  too_many_relays : EndCode
  command_too_long : EndCode
  command_too_short : EndCode
  elements_data_dont_match : EndCode
  command_format_error : EndCode
  header_error : EndCode
  area_classification_missing : EndCode
  access_size_error : EndCode
  address_range_error : EndCode
  address_range_exceeded : EndCode
  program_missing : EndCode
  relational_error : EndCode
  duplicate_data_access : EndCode
  response_too_big : EndCode
  parameter_error : EndCode
  read_not_possible_protected : EndCode
  read_not_possible_table_missing : EndCode
  read_not_possible_data_missing : EndCode
  read_not_possible_program_missing : EndCode
  read_not_possible_file_missing : EndCode
  read_not_possible_data_mismatch : EndCode
  write_not_possible_read_only : EndCode
  write_not_possible_protected : EndCode
  write_not_possible_cannot_register : EndCode
  write_not_possible_program_missing : EndCode
  write_not_possible_file_missing : EndCode
  write_not_possible_file_name_already_exists : EndCode
  write_not_possible_cannot_change : EndCode
  not_executable_in_current_mode_not_possible_during_execution : EndCode
  not_executable_in_current_mode_not_possible_while_running : EndCode
  not_executable_in_current_mode_wrong_plc_mode_in_program : EndCode
  not_executable_in_current_mode_wrong_plc_mode_in_debug : EndCode
  not_executable_in_current_mode_wrong_plc_mode_in_monitor : EndCode
  not_executable_in_current_mode_wrong_plc_mode_in_run : EndCode
  not_executable_in_current_mode_specified_node_not_polling_node : EndCode
  not_executable_in_current_mode_step_cannot_be_executed : EndCode
  no_such_device_file_device_missing : EndCode
  no_such_device_memory_missing : EndCode
  no_such_device_clock_missing : EndCode
  cannot_start_stop_table_missing : EndCode
  unit_error_memory_error : EndCode
  unit_error_io_error : EndCode
  unit_error_too_many_io_points : EndCode
  unit_error_cpu_bus_error : EndCode
  unit_error_io_duplication : EndCode
  unit_error_io_bus_error : EndCode
  unit_error_sysmac_bus2_error : EndCode
  unit_error_cpu_bus_unit_error : EndCode
  unit_error_sysmac_bus_number_duplication : EndCode
  unit_error_memory_status_error : EndCode
  unit_error_sysmac_bus_terminator_missing : EndCode
  command_error_no_protection : EndCode
  command_error_incorrect_password : EndCode
  command_error_protected : EndCode
  command_error_service_already_executing : EndCode
  command_error_service_stopped : EndCode
  command_error_no_execution_right : EndCode
  command_error_settings_not_complete : EndCode
  command_error_necessary_items_not_set : EndCode
  command_error_number_already_defined : EndCode
  command_error_error_will_not_clear : EndCode
  access_write_error_no_access_right : EndCode
  abort_service_aborted : EndCode

abbrev pub end_code_value : EndCode → ℕ
end_code_value normal_completion = 0x0000
end_code_value service_interrupted = 0x0001
end_code_value local_node_not_in_network = 0x0101
end_code_value token_timeout = 0x0102
end_code_value retries_failed = 0x0103
end_code_value too_many_send_frames = 0x0104
end_code_value node_address_range_error = 0x0105
end_code_value node_address_range_duplication = 0x0106
end_code_value destination_node_not_in_network = 0x0201
end_code_value unit_missing = 0x0202
end_code_value third_node_missing = 0x0203
end_code_value destination_node_busy = 0x0204
end_code_value response_timeout = 0x0205
end_code_value communications_controller_error = 0x0301
end_code_value cpu_unit_error = 0x0302
end_code_value controller_error = 0x0303
end_code_value unit_number_error = 0x0304
end_code_value undefined_command = 0x0401
end_code_value not_supported_by_model_version = 0x0402
end_code_value destination_address_setting_error = 0x0501
end_code_value no_routing_tables = 0x0502
end_code_value routing_table_error = 0x0503
end_code_value too_many_relays = 0x0504
end_code_value command_too_long = 0x1001
end_code_value command_too_short = 0x1002
end_code_value elements_data_dont_match = 0x1003
end_code_value command_format_error = 0x1004
end_code_value header_error = 0x1005
end_code_value area_classification_missing = 0x1101
end_code_value access_size_error = 0x1102
end_code_value address_range_error = 0x1103
end_code_value address_range_exceeded = 0x1104
end_code_value program_missing = 0x1106
end_code_value relational_error = 0x1109
end_code_value duplicate_data_access = 0x110a
end_code_value response_too_big = 0x110b
end_code_value parameter_error = 0x110c
end_code_value read_not_possible_protected = 0x2002
end_code_value read_not_possible_table_missing = 0x2003
end_code_value read_not_possible_data_missing = 0x2004
end_code_value read_not_possible_program_missing = 0x2005
end_code_value read_not_possible_file_missing = 0x2006
end_code_value read_not_possible_data_mismatch = 0x2007
end_code_value write_not_possible_read_only = 0x2101
end_code_value write_not_possible_protected = 0x2102
end_code_value write_not_possible_cannot_register = 0x2103
end_code_value write_not_possible_program_missing = 0x2105
end_code_value write_not_possible_file_missing = 0x2106
end_code_value write_not_possible_file_name_already_exists = 0x2107
end_code_value write_not_possible_cannot_change = 0x2108
end_code_value not_executable_in_current_mode_not_possible_during_execution = 0x2201
end_code_value not_executable_in_current_mode_not_possible_while_running = 0x2202
end_code_value not_executable_in_current_mode_wrong_plc_mode_in_program = 0x2203
end_code_value not_executable_in_current_mode_wrong_plc_mode_in_debug = 0x2204
end_code_value not_executable_in_current_mode_wrong_plc_mode_in_monitor = 0x2205
end_code_value not_executable_in_current_mode_wrong_plc_mode_in_run = 0x2206
end_code_value not_executable_in_current_mode_specified_node_not_polling_node = 0x2207
end_code_value not_executable_in_current_mode_step_cannot_be_executed = 0x2208
end_code_value no_such_device_file_device_missing = 0x2301
end_code_value no_such_device_memory_missing = 0x2302
end_code_value no_such_device_clock_missing = 0x2303
end_code_value cannot_start_stop_table_missing = 0x2401
end_code_value unit_error_memory_error = 0x2502
end_code_value unit_error_io_error = 0x2503
end_code_value unit_error_too_many_io_points = 0x2504
end_code_value unit_error_cpu_bus_error = 0x2505
end_code_value unit_error_io_duplication = 0x2506
end_code_value unit_error_io_bus_error = 0x2507
end_code_value unit_error_sysmac_bus2_error = 0x2509
end_code_value unit_error_cpu_bus_unit_error = 0x250a
end_code_value unit_error_sysmac_bus_number_duplication = 0x250d
end_code_value unit_error_memory_status_error = 0x250f
end_code_value unit_error_sysmac_bus_terminator_missing = 0x2510
end_code_value command_error_no_protection = 0x2601
end_code_value command_error_incorrect_password = 0x2602
end_code_value command_error_protected = 0x2604
end_code_value command_error_service_already_executing = 0x2605
end_code_value command_error_service_stopped = 0x2606
end_code_value command_error_no_execution_right = 0x2607
end_code_value command_error_settings_not_complete = 0x2608
end_code_value command_error_necessary_items_not_set = 0x2609
end_code_value command_error_number_already_defined = 0x260a
end_code_value command_error_error_will_not_clear = 0x260b
end_code_value access_write_error_no_access_right = 0x3001
end_code_value abort_service_aborted = 0x4001
