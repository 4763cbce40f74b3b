-- ===== src/A2/Qsfp.antt =====
-- include/pm_dom.h, `pm_qsfp_dom_t`: the lower memory map, bytes 0 to 127, of a QSFP module.
use ops_pmd.Base.{ℕ, Bool, List}
use ops_pmd.SerialId.{bit_at}

abbrev pub temp : ℕ
temp = 22

abbrev pub voltage : ℕ
voltage = 26

abbrev pub rx1_power : ℕ
rx1_power = 34

abbrev pub rx2_power : ℕ
rx2_power = 36

abbrev pub rx3_power : ℕ
rx3_power = 38

abbrev pub rx4_power : ℕ
rx4_power = 40

abbrev pub tx1_bias : ℕ
tx1_bias = 42

abbrev pub tx2_bias : ℕ
tx2_bias = 44

abbrev pub tx3_bias : ℕ
tx3_bias = 46

abbrev pub tx4_bias : ℕ
tx4_bias = 48

abbrev pub latched_rx2_power_low_warning : List ℕ → Bool
latched_rx2_power_low_warning page = bit_at page 9 0

abbrev pub latched_rx2_power_high_warning : List ℕ → Bool
latched_rx2_power_high_warning page = bit_at page 9 1

abbrev pub latched_rx2_power_low_alarm : List ℕ → Bool
latched_rx2_power_low_alarm page = bit_at page 9 2

abbrev pub latched_rx2_power_high_alarm : List ℕ → Bool
latched_rx2_power_high_alarm page = bit_at page 9 3

abbrev pub latched_rx1_power_low_warning : List ℕ → Bool
latched_rx1_power_low_warning page = bit_at page 9 4

abbrev pub latched_rx1_power_high_warning : List ℕ → Bool
latched_rx1_power_high_warning page = bit_at page 9 5

abbrev pub latched_rx1_power_low_alarm : List ℕ → Bool
latched_rx1_power_low_alarm page = bit_at page 9 6

abbrev pub latched_rx1_power_high_alarm : List ℕ → Bool
latched_rx1_power_high_alarm page = bit_at page 9 7

abbrev pub latched_rx4_power_low_warning : List ℕ → Bool
latched_rx4_power_low_warning page = bit_at page 10 0

abbrev pub latched_rx4_power_high_warning : List ℕ → Bool
latched_rx4_power_high_warning page = bit_at page 10 1

abbrev pub latched_rx4_power_low_alarm : List ℕ → Bool
latched_rx4_power_low_alarm page = bit_at page 10 2

abbrev pub latched_rx4_power_high_alarm : List ℕ → Bool
latched_rx4_power_high_alarm page = bit_at page 10 3

abbrev pub latched_rx3_power_low_warning : List ℕ → Bool
latched_rx3_power_low_warning page = bit_at page 10 4

abbrev pub latched_rx3_power_high_warning : List ℕ → Bool
latched_rx3_power_high_warning page = bit_at page 10 5

abbrev pub latched_rx3_power_low_alarm : List ℕ → Bool
latched_rx3_power_low_alarm page = bit_at page 10 6

abbrev pub latched_rx3_power_high_alarm : List ℕ → Bool
latched_rx3_power_high_alarm page = bit_at page 10 7

abbrev pub latched_tx2_bias_low_warning : List ℕ → Bool
latched_tx2_bias_low_warning page = bit_at page 11 0

abbrev pub latched_tx2_bias_high_warning : List ℕ → Bool
latched_tx2_bias_high_warning page = bit_at page 11 1

abbrev pub latched_tx2_bias_low_alarm : List ℕ → Bool
latched_tx2_bias_low_alarm page = bit_at page 11 2

abbrev pub latched_tx2_bias_high_alarm : List ℕ → Bool
latched_tx2_bias_high_alarm page = bit_at page 11 3

abbrev pub latched_tx1_bias_low_warning : List ℕ → Bool
latched_tx1_bias_low_warning page = bit_at page 11 4

abbrev pub latched_tx1_bias_high_warning : List ℕ → Bool
latched_tx1_bias_high_warning page = bit_at page 11 5

abbrev pub latched_tx1_bias_low_alarm : List ℕ → Bool
latched_tx1_bias_low_alarm page = bit_at page 11 6

abbrev pub latched_tx1_bias_high_alarm : List ℕ → Bool
latched_tx1_bias_high_alarm page = bit_at page 11 7

abbrev pub latched_tx4_bias_low_warning : List ℕ → Bool
latched_tx4_bias_low_warning page = bit_at page 12 0

abbrev pub latched_tx4_bias_high_warning : List ℕ → Bool
latched_tx4_bias_high_warning page = bit_at page 12 1

abbrev pub latched_tx4_bias_low_alarm : List ℕ → Bool
latched_tx4_bias_low_alarm page = bit_at page 12 2

abbrev pub latched_tx4_bias_high_alarm : List ℕ → Bool
latched_tx4_bias_high_alarm page = bit_at page 12 3

abbrev pub latched_tx3_bias_low_warning : List ℕ → Bool
latched_tx3_bias_low_warning page = bit_at page 12 4

abbrev pub latched_tx3_bias_high_warning : List ℕ → Bool
latched_tx3_bias_high_warning page = bit_at page 12 5

abbrev pub latched_tx3_bias_low_alarm : List ℕ → Bool
latched_tx3_bias_low_alarm page = bit_at page 12 6

abbrev pub latched_tx3_bias_high_alarm : List ℕ → Bool
latched_tx3_bias_high_alarm page = bit_at page 12 7
