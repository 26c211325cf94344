-- ===== src/Snmp/Dispatch.antt =====
-- firmware/components/snmp_core/snmp_dispatch.c.
use wespe.Prelude.{◌==◌, if◌then◌else◌}
use wespe.Ber.Types.{
  Result, err, bad_tag, pdu_get_request, pdu_get_next_request, pdu_set_request,
  pdu_get_bulk_request,
}
use wespe.Mib.Registry.{Registry}
use wespe.Snmp.Types.{Ctx}
use wespe.Snmp.Read.{handle_get, handle_getnext}
use wespe.Snmp.Bulk.{handle_getbulk}
use wespe.Snmp.Write.{handle_set}

module _ {D : Type 0} (reg : Registry D) where
  unfoldable pub dispatch_pdu : Ctx → D → Result (Ctx × D)
  dispatch_pdu ctx d =
      if ctx.pdu_tag == pdu_get_request
      then handle_get reg ctx d
      else if ctx.pdu_tag == pdu_get_next_request
      then handle_getnext reg ctx d
      else if ctx.pdu_tag == pdu_set_request
      then handle_set reg ctx d
      else if ctx.pdu_tag == pdu_get_bulk_request
      then handle_getbulk reg ctx d
      else err bad_tag
