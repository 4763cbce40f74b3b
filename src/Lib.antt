-- ===== src/Lib.antt =====
-- The pluggable module daemon ops-pmd: it watches the SFP+, QSFP+ and QSFP28 modules of a switch,
-- reads the serial id page of each, and publishes what it finds in the database (OVSDB), whose
-- configuration it follows.
--
-- Parts, and the files that model them:
--   * Base: C strings, arrays, return codes, and the string-keyed maps (`shash`, `smap`) of the
--     library libopenvswitch as association lists, of which the daemon uses insertion, lookup of the
--     first entry with a name, its deletion, and iteration.
--   * Format: the texts that src/pm_detect.c makes of pages and OUIs (`hex_to_ascii`,
--     `pm_oui_format`, `set_supported_speeds`), and `%d` and `strtol` of the C library.
--   * Port: `pm_port_t` and the macros that write its columns, include/pmd.h.in, and
--     `pm_delete_all_data` of src/plug.c. A macro `SET_STRING` is `set_string`, and so on.
--   * SerialId: the serial id page of include/plug.h, 128 bytes, and the reads of those members of
--     its two structs that the daemon uses.
--   * Layout: all the structs of include/plug.h and include/pm_dom.h that describe pages, and the places
--     that the compiler gives their members.
--   * Detect: `pm_parse`, `pm_byte_sum` and `sfpp_sum_verify` of src/pm_detect.c.
--   * Float: the numbers of type `float` and `double` that src/pm_dom.c computes.
--   * A2: the page of diagnostics of include/pm_dom.h, and the places that the daemon reads of its two
--     structs.
--   * Dom: src/pm_dom.c, `set_a2_read_request` and `pm_set_a2`, which turns that page into columns.
--   * Plug: src/plug.c, the reading and the enabling of modules.
--   * Config: src/config.c, the lookup in the hardware description; Config/A2Devices is its function
--     `pm_create_a2_devices`, which the daemon does not call.
--   * Db: src/ovsdb_access.c, the ports against the database; Db/Loop has the operations that the
--     main loop calls.
--   * Daemon: `pmd_run` of src/pmd.c and the set-up `pm_ovsdb_if_init`; its runs as a step relation.
--   * Main: `main` of src/pmd.c with its commands and its loop; Main/Options is `parse_options`.
--   * Sim: the code of src/plug.c and src/pmd.c under PLATFORM_SIMULATION: the command
--     `ops-pmd/sim`, the functions on a port that this build replaces, and Sim/Loop the passes over
--     all ports with the commands between them.
--   * Dump: the debug dump of src/ovsdb_access.c and its command `ops-pmd/dump` in src/pmd.c.
--   * Tests: concrete modules, ports and databases.
--
-- The main loop calls `pmd_reconfigure` (Db.Loop), which creates and deletes ports, then
-- `pm_read_state` (Plug), which reads the modules through `pm_parse` (Detect) into the columns (Port),
-- then `pm_ovsdb_update` (Db.Loop), which writes the ports that are marked as changed. The global
-- variables `ovs_intfs`, `ovs_subs`, `idl_seqno` and `cur_hw_set` are the record `Pmd`. A function
-- that acts on a port takes and returns it; nothing else refers to a port than `ovs_intfs`.
--
-- Parameters: ops-config-yaml with its I2C access, and the clock, are the record `Platform`, whose
-- state `World` changes in every call that can change it (`DeviceLibrary` has what only
-- `pm_create_a2_devices` uses of it); the OVSDB IDL is the record `Idl`, and `PmInfoColumn` the
-- reading of one of its columns with the laws that the theorems on whole runs need; the strings of
-- the database schema, which a generated header defines, are the record `Build`, with the bytes
-- that stand behind two literals which a `memcpy` overruns; `getopt_long` with the options of the
-- library libovscommon is the record `OptionLibrary`, and its control socket the record `Unixctl`;
-- the files that a simulated module is read from are a function from names to bytes. Nothing is
-- assumed of them but what a theorem lists among its hypotheses.
--
-- Bounds and fuel: `retry_count` of src/plug.c is 2 and is the fuel of `presence_loop`, `read_loop` and
-- `read_a2_loop`; a failure at 0 is the last branch of the source, and Plug/Retry shows that the steps of
-- the code itself come to the same end. `print_int` of n uses n + 1 rounds, and n has at most n + 1
-- digits. `bit_length` counts the digits of numbers below 2 ^ 128; the greatest in use is a word times a
-- mantissa of 53 digits. `strtol` stops at the greatest `long`.
--
-- Assumptions: memory is not exhausted; a bit field takes the next bit of its byte from the lowest
-- up; a port has a connector where the source compares it without a test, and a missing connector
-- matches no name; `char` is signed, `float` and `double` are the binary32 and binary64 of IEEE 754
-- rounded to nearest; the name of an eeprom has less than 1020 characters; `int` values that are
-- printed are not negative; all files but those of Sim are about the build for hardware.
-- The tests that the source has fixed by `&& false` and `|| true` stand as they do there.
--
-- Not modelled: logging; the freeing of memory; what `main` calls of libovscommon for the process
-- itself (its title, the detaching, signals); the columns that the set-up subscribes to in the
-- OVSDB IDL; how long a round sleeps; the work on the database in the build for simulation, which
-- is that of the other build; the comment in `pm_ovsdb_update` that once published the diagnostics.
pub mod Base
pub mod Format
pub mod Float
pub mod Port
pub mod SerialId
pub mod Layout
pub mod Detect
pub mod A2
pub mod Dom
pub mod Platform
pub mod Plug
pub mod Config
pub mod Db
pub mod Daemon
pub mod Main
pub mod Sim
pub mod Dump
pub mod Tests
