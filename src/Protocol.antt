-- ===== src/Protocol.antt =====
-- The constants of netio.h (TFTP and its error codes) and of AmigaOS that several modules use.
use cwnet.Base.{ℕ}

abbrev pub tftp_max_data_size : ℕ
tftp_max_data_size = 512

abbrev pub op_wrq : ℕ
op_wrq = 2

abbrev pub op_data : ℕ
op_data = 3

abbrev pub op_ack : ℕ
op_ack = 4

abbrev pub op_error : ℕ
op_error = 5

abbrev pub error_no_free_store : ℕ
error_no_free_store = 103

abbrev pub error_tftp_generic_error : ℕ
error_tftp_generic_error = 1000

abbrev pub error_tftp_unknown_opcode : ℕ
error_tftp_unknown_opcode = 1001

abbrev pub error_tftp_wrong_block_num : ℕ
error_tftp_wrong_block_num = 1002

abbrev pub error_io_not_finished : ℕ
error_io_not_finished = 1003

abbrev pub error_io_timeout : ℕ
error_io_timeout = 1004
