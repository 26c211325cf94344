-- ===== src/Snmp/Types.antt =====
-- firmware/components/snmp_core/include/snmp_pdu.h.
use wespe.Prelude.{ℕ, Bool, true, false, List, []}
use wespe.Mib.Types.{Varbind}

abbrev pub max_varbinds : ℕ
max_varbinds = 50

abbrev pub max_principal_len : ℕ
max_principal_len = 32

pub data Version : Type 0 where
  v1 v2c v3 : Version

-- The values of the enumeration, as they stand in msgVersion.
abbrev pub version_number : Version → ℕ
version_number Version.v1 = 0
version_number Version.v2c = 1
version_number Version.v3 = 3

abbrev pub is_v1 : Version → Bool
is_v1 Version.v1 = true
is_v1 Version.v2c = false
is_v1 Version.v3 = false

abbrev pub is_v2c : Version → Bool
is_v2c Version.v1 = false
is_v2c Version.v2c = true
is_v2c Version.v3 = false

pub data AccessMode : Type 0 where
  none read readwrite : AccessMode

-- snmp_pdu_ctx_t. The int32_t are bit patterns, `varbinds` holds `varbind_count` entries, and
-- `principal` is the text before the terminating NUL.
pub record Ctx : Type 0 where
  pub version : Version
  pub pdu_tag : ℕ
  pub request_id : ℕ
  pub error_status : ℕ
  pub error_index : ℕ
  pub varbinds : List Varbind
  pub access_mode : AccessMode
  pub principal : List ℕ

-- `memset(&s_ctx, 0, sizeof(s_ctx))`
abbrev pub zeroed_ctx : Ctx
zeroed_ctx = record {
  version = Version.v1;
  pdu_tag = 0;
  request_id = 0;
  error_status = 0;
  error_index = 0;
  varbinds = [];
  access_mode = AccessMode.none;
  principal = [];
}
