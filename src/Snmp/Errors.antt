-- ===== src/Snmp/Errors.antt =====
-- firmware/components/snmp_core: snmp_error.h and snmp_error.c.
use wespe.Prelude.{ℕ, Bool, true, false, if◌then◌else◌}
use wespe.Ber.Types.{tag_no_such_object, tag_no_such_instance, tag_end_of_mib_view}
use wespe.Mib.Types.{MibResult}
use wespe.Snmp.Types.{Version, is_v1}

-- snmp_v1_error_status_t
abbrev pub no_error : ℕ
no_error = 0

abbrev pub no_such_name : ℕ
no_such_name = 2

abbrev pub bad_value : ℕ
bad_value = 3

abbrev pub read_only : ℕ
read_only = 4

abbrev pub gen_err : ℕ
gen_err = 5

-- snmp_error_translation_t
pub record Translation : Type 0 where
  pub pdu_level_abort : Bool
  pub v1_error_status : ℕ
  pub v2c_exception_tag : ℕ

abbrev abort : ℕ → Translation
abort status = record { pdu_level_abort = true; v1_error_status = status; v2c_exception_tag = 0 }

abbrev exception : ℕ → Translation
exception tag = record {
  pdu_level_abort = false;
  v1_error_status = no_error;
  v2c_exception_tag = tag;
}

-- The switch for SNMPv1, and the one for the other versions.
unfoldable pub translate_v1 : MibResult → Translation
translate_v1 MibResult.ok = exception 0
translate_v1 MibResult.no_such_object = abort no_such_name
translate_v1 MibResult.no_such_instance = abort no_such_name
translate_v1 MibResult.end_of_view = abort no_such_name
translate_v1 MibResult.wrong_type = abort bad_value
translate_v1 MibResult.wrong_value = abort bad_value
translate_v1 MibResult.not_writable = abort read_only
translate_v1 MibResult.gen_err = abort gen_err

unfoldable pub translate_v2c : MibResult → Translation
translate_v2c MibResult.ok = exception 0
translate_v2c MibResult.no_such_object = exception tag_no_such_object
translate_v2c MibResult.no_such_instance = exception tag_no_such_instance
translate_v2c MibResult.end_of_view = exception tag_end_of_mib_view
translate_v2c MibResult.wrong_type = abort gen_err
translate_v2c MibResult.wrong_value = abort gen_err
translate_v2c MibResult.not_writable = abort gen_err
translate_v2c MibResult.gen_err = abort gen_err

unfoldable pub error_translate : Version → MibResult → Translation
unfolding translate_v1 translate_v2c
error_translate version result = if is_v1 version then translate_v1 result else translate_v2c result
