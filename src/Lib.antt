-- ===== src/Lib.antt =====
-- Wespe, an SNMP agent for a microcontroller: a model of its protocol core in C, with the theorems
-- that make it correct.
--
-- The program. A datagram goes to snmp_message_process, which reads the version in the outer SEQUENCE
-- and looks up the security model that is registered for it. The model checks the credentials and
-- decodes the PDU into a context; the dispatcher hands the context to the handler of Get, GetNext,
-- GetBulk or Set; the handler reads and writes the managed objects through the registry of the MIB;
-- and the model encodes the context into the answer. Below it all is a BER codec, whose encoder
-- writes backwards, from the end of the buffer. Traps are built by the same encoders, for a task that
-- watches the relay and the temperature.
--
-- The files, and the code that they are about (paths from the root of the repository):
--   Prelude     names, tests, list lemmas, bytes and words, texts
--   Ber         firmware/components/ber: Types (ber_types.h, ber_tlv_t), Decode (ber_decode.c),
--               Encode (ber_encode.c); what the encoders write (Wire), lengths and elements read back
--               (RoundTrip, Integers, ReadsBack, Oids), and the bounds of the decoder (Bounds)
--   Mib         firmware/components/mib: Types (mib_types.h, mib_object.h, mib_table.h, mib_tree.h),
--               and mib_registry.c in Oid (mib_oid_compare), Next (the nearest candidate), Registry
--               (registration, mib_registry_find and _find_next), Tables (table_find_exact and _next)
--               and Resolve (mib_registry_resolve and _resolve_next, mib_resolved_get and _set); what
--               walks, with the device left alone or changing (Resolve/Walk, Resolve/Shifting), and what holds of
--               all that is registered (Resolve/Instances, Resolve/Oids)
--   Snmp        firmware/components/snmp_core: Types (snmp_pdu.h), Codec (snmp_codec.c), Errors
--               (snmp_error.c), Read (snmp_pdu_get.c), Bulk (snmp_pdu_getbulk.c), Write
--               (snmp_pdu_set.c), Dispatch (snmp_dispatch.c), Security (snmp_security.c,
--               snmp_security_community.c, snmp_security_usm_stub.c), Message (snmp_message.c) and
--               Trap (snmp_pdu_trap.c); what a message says of its
--               sender (Message/Credentials), and what a whole exchange keeps (Keeps)
--   Transport   firmware/components/transport/snmp_udp.c: a round of the loop, the sender of traps
--   Hal         firmware/components/device_hal: Interfaces (relay.h, sensor.h, sysinfo.h), and the
--               drivers: Sysinfo (sysinfo_esp32.c), Relays (relay_gpio.c, relay_mock.c), Mock
--               (sensor_mock.c), OneWire and Ds18b20 (sensor_ds18b20.c), over one Board
--   Device      the objects of firmware/components/mib, over any drivers that have the interfaces:
--               System (mib_ii.c), Wespe (mib_wespe.c), Interfaces (mib_iftable.c), Sensors
--               (mib_sensor_table.c); and Boot, what app_main registers, and how it behaves from then on
--   DevAgent    tools/dev_agent/dev_agent.c, the agent for a host: Types (its variables), Scalars,
--               Interfaces, Sensors, and Agent (main); its rows, what stays in its arrays, what it serves,
--               walks while rows come and go, and its runs (Rows, Valid, Served, Volatile, Runs)
--   Main        firmware/main: Provisioning (wifi_provisioning.c), AppMain (app_main.c)
--   Monitor     firmware/main/trap_monitor.c: the rounds of monitor_task, and send_trap; what is
--               reported of the relay (Changes) and of the temperature (Hysteresis)
--   Checks      runs of the model, and the theorems at concrete inputs
--
-- How the code is read. A function keeps its name without its prefix (ber_decode_tlv is decode_tlv of
-- Ber/Decode, snmp_pdu_handle_set is handle_set of Snmp/Write). A pointer with a length is a list, so
-- the tests for NULL have no counterpart. An int32_t is its bit pattern, a number below 2^32; the
-- wrap-around of uint32_t and uint64_t is written out. A ber_status_t with what is written through
-- pointers is a Result. The buffer, its capacity and the cursor of the encoder are a Scratch: the
-- cursor and the bytes written behind it. The members of the union in snmp_varbind_t are fields of
-- their own. Static variables are passed along: the registry, the table of security models and the
-- communities. Getters, setters and the index callbacks of tables are fields of the objects and
-- tables; they work on a device state of any type, which the handlers thread through.
--
-- GetBulk is there twice: with its response apart from the request, which the exchange uses, and in
-- Snmp/Bulk/InPlace written over the varbinds of the request, as in the code.
--
-- Bounds and fuel. A content length has at most four octets, as in the code's len_bytes[4]: beyond
-- 2^32 the code would write past that array, and every length here is far below. The groups of an arc
-- are at most five. Binary searches have the number of objects plus one as fuel, and the loops over
-- rows 2^32 rounds, one more than a strictly ascending uint32_t can take; that both are enough is part
-- of the theorems on them. The loop over varbinds has a round for each byte, and takes two at least.
-- The loop that skips Counter64 has the guard of the code, 64.
--
-- Arrays. A write past the end of a list changes nothing, so where the code indexes s_labels and
-- s_read_count with what a driver allows, the Device has a flag, in_bounds, that an access outside of
-- them clears. A trap whose OID runs past oid_value[BER_MAX_OID_LEN] is `none`.
--
-- Drivers. A getter of the firmware reads the drivers through a record of the functions in relay.h,
-- sensor.h and sysinfo.h, over any state of the hardware; the drivers of device_hal are such records
-- over a Board, which has the static variables, and what ESP-IDF tells at the moment. A search of the
-- registry sees one state of the drivers; between the rounds of the UDP loop they may change in any
-- way. The 1-Wire bus is a log of what is done to the pin, and a list of the levels that are read. The
-- clock of the development agent likewise stands still while a message is processed.
--
-- Not modelled. The calls that set up sockets, tasks, pins and WiFi, which are ESP-IDF's and come in as
-- arguments where the code looks at their results; log lines, and delays between rounds; the
-- arguments of the development agent and the set-up of its socket; the tests.
pub mod Prelude
pub mod Ber
pub mod Mib
pub mod Snmp
pub mod Monitor
pub mod Transport
pub mod Hal
pub mod Device
pub mod DevAgent
pub mod Main
pub mod Checks
