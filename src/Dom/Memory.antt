-- ===== src/Dom/Memory.antt =====
-- src/pm_dom.c: `pm_set_a2` against the memory maps of the modules, SFF-8472 and SFF-8636: where each
-- value stands is given by a formula here.
use ops_pmd.Base.{
  ℕ, ◌+◌, ◌-◌, ◌*◌, ◌/◌, ◌%◌, ◌≡◌, refl, true, Option, none, some, List, [], ◌∷◌, ◌==◌,
  if◌then◌else◌,
}
use ops_pmd.Float.{Float}
use ops_pmd.Port.{
  Quantity, temperature, vcc, tx_bias, rx_power, tx_power, lane_tx_bias, lane_rx_power, lane_1,
  lane_2, lane_3, lane_4, lane_index, Level, high_alarm, low_alarm, high_warning, low_warning,
  DomColumn, reading, flag, threshold, dom_index,
}
use ops_pmd.SerialId.{bit_at}
use ops_pmd.A2.{celsius, by_ten_thousandth, by_two_thousandths}
use ops_pmd.Detect.{ModuleType, sfp_plus, qsfp_plus, qsfp28}
use ops_pmd.Dom.{
  Assignment, float_string, bool_string, sfp_assignments, qsfp_assignments, assignments,
}
use ops_pmd.Dom.Assign.{target, fresh, distinct}

-- The unit of a two-byte number: a temperature in 1/256 degree, a current in 2 microamperes, a voltage or a
-- power in a ten-thousandth.
pub data Scale : Type 0 where
  in_degrees in_ten_thousandths in_two_thousandths : Scale

-- Where a value stands: a number in two bytes, or bit `k` of byte `i`.
pub data Place : Type 0 where
  number : Scale → ℕ → Place
  bit : (i k : ℕ) → Place

abbrev scale : Quantity → Scale
scale temperature = in_degrees
scale tx_bias = in_two_thousandths
scale (lane_tx_bias lane) = in_two_thousandths
scale _ = in_ten_thousandths

abbrev is_high : Level → ℕ
is_high high_alarm = 1
is_high low_alarm = 0
is_high high_warning = 1
is_high low_warning = 0

abbrev is_warning : Level → ℕ
is_warning high_alarm = 0
is_warning low_alarm = 0
is_warning high_warning = 1
is_warning low_warning = 1

-- The place of a quantity among those of an SFP+ module.
abbrev sfp_rank : Quantity → Option ℕ
sfp_rank temperature = some 0
sfp_rank vcc = some 1
sfp_rank tx_bias = some 2
sfp_rank tx_power = some 3
sfp_rank rx_power = some 4
sfp_rank _ = none

-- SFF-8472: thresholds from byte 0 on, readings from byte 96 on, flags in two bits of bytes 112 and 116,
-- those of the fifth quantity in the bytes behind them.
abbrev sfp_place : DomColumn → ℕ → Place
sfp_place (reading q) rank = number (scale q) (96 + 2 * rank)
sfp_place (flag q l) rank =
    bit (112 + 4 * is_warning l + rank / 4) (6 - 2 * (rank % 4) * (1 - rank / 4) + is_high l)
sfp_place (threshold q l) rank =
    number (scale q) (8 * rank + 4 * is_warning l + 2 * (1 - is_high l))

abbrev quantity_of : DomColumn → Quantity
quantity_of (reading q) = q
quantity_of (flag q l) = q
quantity_of (threshold q l) = q

-- SFF-8636: the lanes' received powers from byte 34 on, their currents from byte 42 on, and flags from
-- bytes 9 and 11 on, four bits to a lane, the odd lanes in the upper half.
abbrev lane_flag : ℕ → ℕ → Level → Place
lane_flag base lane l =
    bit (base + lane / 2) (4 * (1 - lane % 2) + 2 * (1 - is_warning l) + is_high l)

abbrev qsfp_place : DomColumn → Option Place
qsfp_place (reading temperature) = some (number in_degrees 22)
qsfp_place (reading vcc) = some (number in_ten_thousandths 26)
qsfp_place (reading (lane_rx_power lane)) =
    some (number in_ten_thousandths (34 + 2 * lane_index lane))
qsfp_place (reading (lane_tx_bias lane)) =
    some (number in_two_thousandths (42 + 2 * lane_index lane))
qsfp_place (flag (lane_rx_power lane) l) = some (lane_flag 9 (lane_index lane) l)
qsfp_place (flag (lane_tx_bias lane) l) = some (lane_flag 11 (lane_index lane) l)
qsfp_place _ = none

-- The place that the memory map of a module has for a column, if it has one.
abbrev pub place : ModuleType → DomColumn → Option Place
place sfp_plus c = elim (sfp_rank (quantity_of c)) [
  | none ↦ none
  | some rank ↦ some (sfp_place c rank)
]
place qsfp_plus c = qsfp_place c
place qsfp28 c = qsfp_place c

-- The number that the code makes of two bytes.
abbrev pub decode : Scale → List ℕ → ℕ → Float
decode in_degrees page i = celsius page i
decode in_ten_thousandths page i = by_ten_thousandth page i
decode in_two_thousandths page i = by_two_thousandths page i

-- The call that sets a column from its place.
abbrev pub call_for : List ℕ → DomColumn → Place → Assignment
call_for page c (number s i) = float_string c (decode s page i)
call_for page c (bit i k) = bool_string c (bit_at page i k)

abbrev pub entry : ModuleType → List ℕ → DomColumn → Option Assignment
entry t page c = elim (place t c) [ none ↦ none | some at ↦ some (call_for page c at) ]

-- The call of a list that is about the column with an index.
abbrev pub find_call : ℕ → List Assignment → Option Assignment
find_call i [] = none
find_call i (call ∷ calls) = if dom_index (target call) == i then some call else find_call i calls

each_level :
    (Q : Level → Type 0)
    → Q high_alarm
    → Q low_alarm
    → Q high_warning
    → Q low_warning
    → (l : Level) → Q l
each_level Q a b c d high_alarm = a
each_level Q a b c d low_alarm = b
each_level Q a b c d high_warning = c
each_level Q a b c d low_warning = d

-- The list has for the columns of a quantity the calls that the map asks for.
abbrev Agrees : List Assignment → (DomColumn → Option Assignment) → Quantity → Level → Type 0
Agrees calls asked q l =
    (find_call (dom_index (reading q)) calls ≡ asked (reading q))
    × (find_call (dom_index (flag q l)) calls ≡ asked (flag q l))
    × (find_call (dom_index (threshold q l)) calls ≡ asked (threshold q l))

sfp_assignments-Agrees :
    (page : List ℕ) (q : Quantity) (l : Level)
    → Agrees (sfp_assignments page) (entry sfp_plus page) q l
unfolding sfp_assignments
sfp_assignments-Agrees page temperature =
    each_level _ (refl, refl, refl) (refl, refl, refl) (refl, refl, refl) (refl, refl, refl)
sfp_assignments-Agrees page vcc =
    each_level _ (refl, refl, refl) (refl, refl, refl) (refl, refl, refl) (refl, refl, refl)
sfp_assignments-Agrees page tx_bias =
    each_level _ (refl, refl, refl) (refl, refl, refl) (refl, refl, refl) (refl, refl, refl)
sfp_assignments-Agrees page rx_power =
    each_level _ (refl, refl, refl) (refl, refl, refl) (refl, refl, refl) (refl, refl, refl)
sfp_assignments-Agrees page tx_power =
    each_level _ (refl, refl, refl) (refl, refl, refl) (refl, refl, refl) (refl, refl, refl)
sfp_assignments-Agrees page (lane_tx_bias lane_1) =
    each_level _ (refl, refl, refl) (refl, refl, refl) (refl, refl, refl) (refl, refl, refl)
sfp_assignments-Agrees page (lane_tx_bias lane_2) =
    each_level _ (refl, refl, refl) (refl, refl, refl) (refl, refl, refl) (refl, refl, refl)
sfp_assignments-Agrees page (lane_tx_bias lane_3) =
    each_level _ (refl, refl, refl) (refl, refl, refl) (refl, refl, refl) (refl, refl, refl)
sfp_assignments-Agrees page (lane_tx_bias lane_4) =
    each_level _ (refl, refl, refl) (refl, refl, refl) (refl, refl, refl) (refl, refl, refl)
sfp_assignments-Agrees page (lane_rx_power lane_1) =
    each_level _ (refl, refl, refl) (refl, refl, refl) (refl, refl, refl) (refl, refl, refl)
sfp_assignments-Agrees page (lane_rx_power lane_2) =
    each_level _ (refl, refl, refl) (refl, refl, refl) (refl, refl, refl) (refl, refl, refl)
sfp_assignments-Agrees page (lane_rx_power lane_3) =
    each_level _ (refl, refl, refl) (refl, refl, refl) (refl, refl, refl) (refl, refl, refl)
sfp_assignments-Agrees page (lane_rx_power lane_4) =
    each_level _ (refl, refl, refl) (refl, refl, refl) (refl, refl, refl) (refl, refl, refl)

qsfp_assignments-Agrees :
    (page : List ℕ) (q : Quantity) (l : Level)
    → Agrees (qsfp_assignments page) (entry qsfp_plus page) q l
unfolding qsfp_assignments
qsfp_assignments-Agrees page temperature =
    each_level _ (refl, refl, refl) (refl, refl, refl) (refl, refl, refl) (refl, refl, refl)
qsfp_assignments-Agrees page vcc =
    each_level _ (refl, refl, refl) (refl, refl, refl) (refl, refl, refl) (refl, refl, refl)
qsfp_assignments-Agrees page tx_bias =
    each_level _ (refl, refl, refl) (refl, refl, refl) (refl, refl, refl) (refl, refl, refl)
qsfp_assignments-Agrees page rx_power =
    each_level _ (refl, refl, refl) (refl, refl, refl) (refl, refl, refl) (refl, refl, refl)
qsfp_assignments-Agrees page tx_power =
    each_level _ (refl, refl, refl) (refl, refl, refl) (refl, refl, refl) (refl, refl, refl)
qsfp_assignments-Agrees page (lane_tx_bias lane_1) =
    each_level _ (refl, refl, refl) (refl, refl, refl) (refl, refl, refl) (refl, refl, refl)
qsfp_assignments-Agrees page (lane_tx_bias lane_2) =
    each_level _ (refl, refl, refl) (refl, refl, refl) (refl, refl, refl) (refl, refl, refl)
qsfp_assignments-Agrees page (lane_tx_bias lane_3) =
    each_level _ (refl, refl, refl) (refl, refl, refl) (refl, refl, refl) (refl, refl, refl)
qsfp_assignments-Agrees page (lane_tx_bias lane_4) =
    each_level _ (refl, refl, refl) (refl, refl, refl) (refl, refl, refl) (refl, refl, refl)
qsfp_assignments-Agrees page (lane_rx_power lane_1) =
    each_level _ (refl, refl, refl) (refl, refl, refl) (refl, refl, refl) (refl, refl, refl)
qsfp_assignments-Agrees page (lane_rx_power lane_2) =
    each_level _ (refl, refl, refl) (refl, refl, refl) (refl, refl, refl) (refl, refl, refl)
qsfp_assignments-Agrees page (lane_rx_power lane_3) =
    each_level _ (refl, refl, refl) (refl, refl, refl) (refl, refl, refl) (refl, refl, refl)
qsfp_assignments-Agrees page (lane_rx_power lane_4) =
    each_level _ (refl, refl, refl) (refl, refl, refl) (refl, refl, refl) (refl, refl, refl)

Agrees-column :
    (calls : List Assignment) (asked : DomColumn → Option Assignment)
    → ((q : Quantity) (l : Level) → Agrees calls asked q l)
    → (c : DomColumn) → find_call (dom_index c) calls ≡ asked c
Agrees-column calls asked h (reading q) = (h q high_alarm).0
Agrees-column calls asked h (flag q l) = (h q l).1
Agrees-column calls asked h (threshold q l) = (h q l).2

pub assignments-entry :
    (t : ModuleType) (page : List ℕ) (c : DomColumn)
    → find_call (dom_index c) (assignments t page) ≡ entry t page c
assignments-entry sfp_plus page c =
    Agrees-column (sfp_assignments page) (entry sfp_plus page) (sfp_assignments-Agrees page) c
assignments-entry qsfp_plus page c =
    Agrees-column (qsfp_assignments page) (entry qsfp_plus page) (qsfp_assignments-Agrees page) c
assignments-entry qsfp28 page c =
    Agrees-column (qsfp_assignments page) (entry qsfp_plus page) (qsfp_assignments-Agrees page) c

pub assignments-distinct : (t : ModuleType) (page : List ℕ) → distinct (assignments t page) ≡ true
unfolding sfp_assignments qsfp_assignments distinct fresh
assignments-distinct sfp_plus page = refl
assignments-distinct qsfp_plus page = refl
assignments-distinct qsfp28 page = refl
