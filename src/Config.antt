-- ===== src/Config.antt =====
-- The compile-time switches of ccnl_caching/dow.h and ccnl_caching/ccnlriot.h. Every definition
-- that an `#if` of the source cuts takes them as an argument, so that one model covers each build.
use miniature_dangerzone.Common.{ℕ, ◌*◌, Bool, true, false}

pub record Config : Type 0 where
  pub deputy : Bool  -- DOW_DEPUTY
  pub debug : Bool  -- DOW_DEBUG
  pub int_int : Bool  -- DOW_INT_INT
  pub rebc_last : Bool  -- DOW_REBC_LAST
  pub rand_seeding : Bool  -- DOW_RAND_SEEDING
  pub hardwired : Bool  -- DOW_HARDWIRED
  pub repl_strat : Bool  -- DOW_CACHE_REPL_STRAT
  pub prio_cache : ℕ  -- DOW_PRIO_CACHE
  pub per : ℕ  -- DOW_PER
  pub apmdmr : Bool  -- DOW_APMDMR
  pub psr : ℕ  -- DOW_PSR
  pub psr2 : ℕ  -- DOW_PSR2
  pub keep_alive_pfx : Bool  -- DOW_KEEP_ALIVE_PFX
  pub keep_alive_min_thr : ℕ  -- DOW_KEEP_ALIVE_MIN_THR
  pub bc_count : ℕ  -- DOW_BC_COUNT
  pub cache_size : ℕ  -- CCNLRIOT_CACHE_SIZE

-- The values in the repository, on a board that is neither native nor a SAMD21.
abbrev pub default_config : Config
default_config = record {
  deputy = false;
  debug = false;
  int_int = false;
  rebc_last = true;
  rand_seeding = false;
  hardwired = false;
  repl_strat = true;
  prio_cache = 0;
  per = 0;
  apmdmr = false;
  psr = 0;
  psr2 = 0;
  keep_alive_pfx = false;
  keep_alive_min_thr = 0;
  bc_count = 3;
  cache_size = 20;
}

abbrev pub sec_in_usec : ℕ
sec_in_usec = 1000000

-- CCNLRIOT_INT_RETRIES
abbrev pub int_retries : ℕ
int_retries = 3

-- CCNLRIOT_INT_TIMEOUT
abbrev pub int_timeout : ℕ
int_timeout = 100000

-- DOW_SENSOR_MAX_NR
abbrev pub sensor_max_nr : ℕ
sensor_max_nr = 5

-- DOW_MAX_PREFIXES
abbrev pub max_prefixes : ℕ
max_prefixes = 10

-- DOW_APMDMR_MIN_INT
abbrev pub apmdmr_min_int : ℕ
apmdmr_min_int = 3

-- DOW_CONT_LEN
abbrev pub cont_len : ℕ
cont_len = 8

-- DOW_Y
abbrev pub deputy_shift : ℕ
deputy_shift = 24

-- DOW_KEEP_ALIVE_PERIOD, in microseconds
abbrev pub keep_alive_period : ℕ
keep_alive_period = 100 * 1000
