-- ===== src/Host/Time.antt =====
-- The constants of contracts/eosio.system/include/eosio.system/constants.hpp, and the accounts of the
-- contract, by the values of their names.
use eosio_system.Base.{ℕ, ◌*◌, ◌^◌, ◌-◌}

abbrev pub seconds_per_year : ℕ
seconds_per_year = 52 * 7 * 24 * 3600

abbrev pub seconds_per_day : ℕ
seconds_per_day = 24 * 3600

abbrev pub seconds_per_hour : ℕ
seconds_per_hour = 3600

abbrev pub useconds_per_year : ℕ
useconds_per_year = seconds_per_year * 1000000

abbrev pub useconds_per_day : ℕ
useconds_per_day = seconds_per_day * 1000000

abbrev pub blocks_per_day : ℕ
blocks_per_day = 2 * seconds_per_day

-- `time_point_sec::maximum()`
abbrev pub end_of_days : ℕ
end_of_days = 2 ^ 32 - 1

-- `"eosio.rex"_n`
abbrev pub rex_account : ℕ
rex_account = 0x5530ea02eae80000

-- `"eosio.names"_n`
abbrev pub names_account : ℕ
names_account = 0x5530ea026692b000

-- `"eosio.stake"_n`
abbrev pub stake_account : ℕ
stake_account = 0x5530ea0319341400

-- `"eosio.ram"_n`
abbrev pub ram_account : ℕ
ram_account = 0x5530ea02e6900000

-- `"eosio.ramfee"_n`
abbrev pub ramfee_account : ℕ
ramfee_account = 0x5530ea02e692d4a0

-- `"eosio.saving"_n`
abbrev pub saving_account : ℕ
saving_account = 0x5530ea0306dba6c0

-- `"eosio.bpay"_n`
abbrev pub bpay_account : ℕ
bpay_account = 0x5530ea00f5378000

-- `"eosio.vpay"_n`
abbrev pub vpay_account : ℕ
vpay_account = 0x5530ea0375378000

-- `"eosio.reserv"_n`
abbrev pub reserv_account : ℕ
reserv_account = 0x5530ea02eac2afb0

-- `"eosio"_n`
abbrev pub eosio : ℕ
eosio = 0x5530ea0000000000

-- `"b1"_n`
abbrev pub b1 : ℕ
b1 = 0x3840000000000000
