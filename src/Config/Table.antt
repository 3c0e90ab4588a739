-- ===== src/Config/Table.antt =====
-- The parameter table of src/svc/svc_config.c: limits, default, and whether a parameter may be
-- written once the store is locked. Names and units are not kept. Every limit is positive, so an
-- `int32_t` is compared by its bit pattern moved by half the range.
use qiran_firmware.Base.{ℕ, Bool, true, false, List, [], get_or, int32_le, ◌&&◌, ◌∷◌}

-- `svc_config_def_t`.
pub record Def : Type 0 where
  pub min : ℕ
  pub max : ℕ
  pub default : ℕ
  pub writable_in_flight : Bool

abbrev row : ℕ → ℕ → ℕ → Bool → Def
row lo hi d w = record { min = lo; max = hi; default = d; writable_in_flight = w }

-- `SVC_CONFIG_PARAM_COUNT`.
abbrev pub param_count : ℕ
param_count = 30

abbrev pub k_def : List Def
k_def =
    row 0 50000 27000 true
    ∷ row 1 1000 100 true
    ∷ row 1000 120000 15000 false
    ∷ row 1000 120000 30000 false
    ∷ row 55000 60000 57500 true
    ∷ row 1 1000 1000 true
    ∷ row 1 50 30 true
    ∷ row 1000 120000 10000 false
    ∷ row 1000 120000 20000 false
    ∷ row 1 10000 1000 true
    ∷ row 1000 120000 10000 false
    ∷ row 1 10000 1500 true
    ∷ row 1000 240000 30000 false
    ∷ row 1000 240000 60000 false
    ∷ row 1000 120000 10000 false
    ∷ row 1000 240000 80000 false
    ∷ row 1 1000 140 true
    ∷ row 1 1000 100 true
    ∷ row 300 500 400 true
    ∷ row 1000 120000 5000 false
    ∷ row 100 10000 2000 false
    ∷ row 2 100 10 true
    ∷ row 2 10 2 true
    ∷ row 1000 60000 10000 false
    ∷ row 1000 300000 120000 false
    ∷ row 15 128 15 true
    ∷ row 1 10 2 true
    ∷ row 1000 10000 5000 true
    ∷ row 100 10000 1000 true
    ∷ row 100 10000 1000 true
    ∷ []

-- `k_def[id]`, for an identifier below the count.
unfoldable pub def_of : ℕ → Def
def_of id = get_or k_def id (row 0 0 0 false)

-- `in_range`.
unfoldable pub in_range : ℕ → ℕ → Bool
in_range id value = int32_le (def_of id).min value && int32_le value (def_of id).max
