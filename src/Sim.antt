-- ===== src/Sim.antt =====
-- src/plug.c and src/pmd.c under PLATFORM_SIMULATION: modules that a control command inserts and
-- removes, and the functions on ports that this build has in place of those for hardware.
-- A file is what `fopen` gives access to, its bytes; reading from a NULL page has no result.
pub mod Modules
pub mod Read
pub mod Loop
pub mod Scan
pub mod Events
use ops_pmd.Base.{
  ℕ, Bool, true, false, not, ◌&&◌, ◌||◌, Option, none, some, List, CString, codes, ◌==◌,
  if◌then◌else◌, ltb, length, take, get_or, str_eq, find, modify_first, ℤ, pos, negsuc, succeeded,
}
use ops_pmd.Port.{PmPort}
use ops_pmd.SerialId.{page_size}
use ops_pmd.Platform.{Platform}
use ops_pmd.Plug.{is_qsfp, disable_byte, serial_id_offset, mark_absent, accept_page}

-- `port->module_data = data`
abbrev pub put_module : Option (List ℕ) → PmPort → PmPort
put_module page p = record p { module_data = page }

-- The page that `fread` makes of a file: one item of the size of a page, or nothing.
unfoldable pub read_page : List ℕ → Option (List ℕ)
read_page file = if ltb (length file) page_size then none else some (take page_size file)

abbrev pub Files : Type 0
Files = CString → Option (List ℕ)

abbrev pub Ports : Type 0
Ports = List (CString × PmPort)

-- The return code, the text for the reply, and the ports. A module that is there is removed first.
unfoldable pub pmd_sim_insert : Files → CString → CString → Ports → ℤ × CString × Ports
pmd_sim_insert fopen name file ports = elim (find name ports) [
  | none ↦ (negsuc 0, codes "No such interface", ports)
  | some _ ↦
      let emptied = modify_first name (put_module none) ports in
      elim (fopen file) [
        | none ↦ (negsuc 0, codes "Can't open file", emptied)
        | some bytes ↦ elim (read_page bytes) [
          | none ↦ (negsuc 0, codes "Unable to read data", emptied)
          | some page ↦ (
            pos 0,
            codes "Pluggable module inserted",
            modify_first name (put_module (some page)) emptied,
          )
        ]
      ]
]

unfoldable pub pmd_sim_remove : CString → Ports → ℤ × CString × Ports
pmd_sim_remove name ports = elim (find name ports) [
  | none ↦ (negsuc 0, codes "No such interface", ports)
  | some port ↦ elim port.module_data [
    | none ↦ (negsuc 0, codes "Pluggable module not present", ports)
    | some _ ↦ (pos 0, codes "Pluggable module removed", modify_first name (put_module none) ports)
  ]
]

pub data Reply : Type 0 where
  reply reply_error : CString → Reply

-- What is sent back for a return code.
abbrev pub reply_to : ℤ × CString × Ports → Option Reply × Ports
reply_to (rc, text, ports) =
    (if succeeded rc then some (reply text) else some (reply_error text), ports)

-- `argv` holds the command's name first. Invalid usage returns before any reply.
unfoldable pub pmd_unixctl_sim : Files → List CString → Ports → Option Reply × Ports
pmd_unixctl_sim fopen argv ports =
    let interface_name = get_or argv 1 (codes "") in
    if (length argv == 4) && str_eq (codes "insert") (get_or argv 2 (codes ""))
    then reply_to (pmd_sim_insert fopen interface_name (get_or argv 3 (codes "")) ports)
    else if (length argv == 3) && str_eq (codes "remove") (get_or argv 2 (codes ""))
    then reply_to (pmd_sim_remove interface_name ports)
    else (none, ports)

-- `pm_get_presence`
unfoldable pub sim_get_presence : PmPort → Bool
sim_get_presence p = elim p.module_data [ none ↦ false | some _ ↦ true ]

-- `pm_configure_port`, with `pm_configure_qsfp`
unfoldable pub sim_configure_port : PmPort → PmPort
sim_configure_port p =
    if is_qsfp p
    then record p { port_enable = disable_byte p }
    else record p { port_enable = if p.hw_enable then 1 else 0 }

module _ (P : Platform) where
  -- `pm_read_module_state`; `pm_read_a0` copies from `module_data` and returns 0. `none` is the copy
  -- from a NULL pointer.
  unfoldable pub sim_read_module_state : PmPort → Option (ℤ × PmPort)
  sim_read_module_state p = elim (serial_id_offset p) [
    | none ↦ some (negsuc 0, p)
    | some _ ↦
        if not (sim_get_presence p) && false
        then some (pos 0, mark_absent P p)
        else if not p.present || p.retry
        then elim p.module_data [ none ↦ none | some page ↦ some (pos 0, accept_page P page p) ]
        else some (pos 0, p)
  ]
