-- ===== src/A2/Sfp.antt =====
-- include/pm_dom.h, `pm_sfp_dom_t`: the bytes 0 to 127 of the page of diagnostics of an SFP+ module.
use ops_pmd.Base.{ℕ, Bool, List}
use ops_pmd.SerialId.{bit_at}

abbrev pub temp_high_alarm : ℕ
temp_high_alarm = 0

abbrev pub temp_low_alarm : ℕ
temp_low_alarm = 2

abbrev pub temp_high_warning : ℕ
temp_high_warning = 4

abbrev pub temp_low_warning : ℕ
temp_low_warning = 6

abbrev pub voltage_high_alarm : ℕ
voltage_high_alarm = 8

abbrev pub voltage_low_alarm : ℕ
voltage_low_alarm = 10

abbrev pub voltage_high_warning : ℕ
voltage_high_warning = 12

abbrev pub voltage_low_warning : ℕ
voltage_low_warning = 14

abbrev pub bias_high_alarm : ℕ
bias_high_alarm = 16

abbrev pub bias_low_alarm : ℕ
bias_low_alarm = 18

abbrev pub bias_high_warning : ℕ
bias_high_warning = 20

abbrev pub bias_low_warning : ℕ
bias_low_warning = 22

abbrev pub tx_power_high_alarm : ℕ
tx_power_high_alarm = 24

abbrev pub tx_power_low_alarm : ℕ
tx_power_low_alarm = 26

abbrev pub tx_power_high_warning : ℕ
tx_power_high_warning = 28

abbrev pub tx_power_low_warning : ℕ
tx_power_low_warning = 30

abbrev pub rx_power_high_alarm : ℕ
rx_power_high_alarm = 32

abbrev pub rx_power_low_alarm : ℕ
rx_power_low_alarm = 34

abbrev pub rx_power_high_warning : ℕ
rx_power_high_warning = 36

abbrev pub rx_power_low_warning : ℕ
rx_power_low_warning = 38

abbrev pub temperature : ℕ
temperature = 96

abbrev pub vcc : ℕ
vcc = 98

abbrev pub tx_bias : ℕ
tx_bias = 100

abbrev pub tx_power : ℕ
tx_power = 102

abbrev pub rx_power : ℕ
rx_power = 104

abbrev pub tx_pwr_low_alarm_flag : List ℕ → Bool
tx_pwr_low_alarm_flag page = bit_at page 112 0

abbrev pub tx_pwr_high_alarm_flag : List ℕ → Bool
tx_pwr_high_alarm_flag page = bit_at page 112 1

abbrev pub tx_bias_low_alarm_flag : List ℕ → Bool
tx_bias_low_alarm_flag page = bit_at page 112 2

abbrev pub tx_bias_high_alarm_flag : List ℕ → Bool
tx_bias_high_alarm_flag page = bit_at page 112 3

abbrev pub vcc_low_alarm_flag : List ℕ → Bool
vcc_low_alarm_flag page = bit_at page 112 4

abbrev pub vcc_high_alarm_flag : List ℕ → Bool
vcc_high_alarm_flag page = bit_at page 112 5

abbrev pub temp_low_alarm_flag : List ℕ → Bool
temp_low_alarm_flag page = bit_at page 112 6

abbrev pub temp_high_alarm_flag : List ℕ → Bool
temp_high_alarm_flag page = bit_at page 112 7

abbrev pub rx_pwr_low_alarm_flag : List ℕ → Bool
rx_pwr_low_alarm_flag page = bit_at page 113 6

abbrev pub rx_pwr_high_alarm_flag : List ℕ → Bool
rx_pwr_high_alarm_flag page = bit_at page 113 7

abbrev pub tx_pwr_low_warning_flag : List ℕ → Bool
tx_pwr_low_warning_flag page = bit_at page 116 0

abbrev pub tx_pwr_high_warning_flag : List ℕ → Bool
tx_pwr_high_warning_flag page = bit_at page 116 1

abbrev pub tx_bias_low_warning_flag : List ℕ → Bool
tx_bias_low_warning_flag page = bit_at page 116 2

abbrev pub tx_bias_high_warning_flag : List ℕ → Bool
tx_bias_high_warning_flag page = bit_at page 116 3

abbrev pub vcc_low_warning_flag : List ℕ → Bool
vcc_low_warning_flag page = bit_at page 116 4

abbrev pub vcc_high_warning_flag : List ℕ → Bool
vcc_high_warning_flag page = bit_at page 116 5

abbrev pub temp_low_warning_flag : List ℕ → Bool
temp_low_warning_flag page = bit_at page 116 6

abbrev pub temp_high_warning_flag : List ℕ → Bool
temp_high_warning_flag page = bit_at page 116 7

abbrev pub rx_pwr_low_warning_flag : List ℕ → Bool
rx_pwr_low_warning_flag page = bit_at page 117 6

abbrev pub rx_pwr_high_warning_flag : List ℕ → Bool
rx_pwr_high_warning_flag page = bit_at page 117 7
