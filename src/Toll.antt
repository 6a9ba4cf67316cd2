-- ===== src/Toll.antt =====
-- client/toll: the toll transactions that an aggregator's file holds. Go's packages, the decimal numbers and
-- the readers of files are the interface TollLibrary; a file keeps wall-clock times, which are abstract.
pub mod Normalize
pub mod Sheet
pub mod PrePass
pub mod Hashes
pub mod Credential
pub mod Folder
mod Examples
use backend_pkg.Common.{ℕ, Bool, List, Bytes, Option}

pub record TollLibrary : Type 1 where
  pub Decimal : Type 0
  pub Float : Type 0
  pub Time : Type 0
  -- shopspring/decimal.
  pub zero_decimal : Decimal
  pub new_from_string : Bytes → Option Decimal
  pub negated : Decimal → Decimal
  pub round_cents : Decimal → Decimal
  pub fixed_cents : Decimal → Bytes
  -- strconv.ParseFloat, a comparison, and whole seconds: `math.Round(f * 24 * 60 * 60)` of days, and
  -- `int(f * 24 * 60 * 60 + 0.5)` of a part of one.
  pub parse_float : Bytes → Option Float
  pub below : Float → ℕ → Bool
  pub above : Float → ℕ → Bool
  pub whole_seconds : Float → ℕ
  pub part_seconds : Float → ℕ
  -- time: the epoch of a sheet plus seconds, a layout, the formats, and the clock of a time.
  pub epoch_plus : ℕ → Time
  pub parse_layout : Bytes → Bytes → Option Time
  pub day_text : Time → Bytes
  pub instant_text : Time → Bytes
  pub clock : Time → ℕ × ℕ × ℕ
  pub at_clock : Time → ℕ × ℕ × ℕ → Time
  -- crypto/sha256, in hexadecimal digits.
  pub digest : Bytes → Bytes
