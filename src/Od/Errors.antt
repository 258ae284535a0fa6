-- ===== src/Od/Errors.antt =====
-- pkg/od/constants.go: the error codes and the attribute bits, and what Go does on a bad slice.
use gocanopen.Base.{ℕ, Bool, true, false, Option, some}

-- `ODR`. A Go `error` that is nil or an `ODR` is an `Option Odr`.
pub data Odr : Type 0 where
  partial no out_of_mem unsupp_access write_only readonly idx_not_exist no_map map_len : Odr
  par_incompat dev_incompat hw type_mismatch data_long data_short sub_not_exist : Odr
  invalid_value value_high value_low max_less_min no_ressource general data_transf : Odr
  data_loc_ctrl data_dev_state od_missing no_data count : Odr

abbrev pub attribute_sdo_r : ℕ
attribute_sdo_r = 0x01

abbrev pub attribute_sdo_w : ℕ
attribute_sdo_w = 0x02

abbrev pub attribute_sdo_rw : ℕ
attribute_sdo_rw = 0x03

abbrev pub attribute_str : ℕ
attribute_str = 0x80

abbrev pub is_partial : Option Odr → Bool
is_partial (some Odr.partial) = true
is_partial _ = false

-- `err == ErrPartial`
unfoldable pub is_err_partial : Odr → Bool
is_err_partial Odr.partial = true
is_err_partial _ = false

-- A Go computation that may end in a run-time panic.
pub data Outcome {ℓ} (A : Type ℓ) : Type ℓ where
  done : A → Outcome A
  panicked : Outcome A

infixl 5 ◌>>=◌
abbrev pub ◌>>=◌ {ℓ κ} : {A : Type ℓ} {B : Type κ} → Outcome A → (A → Outcome B) → Outcome B
done a >>= f = f a
panicked >>= f = panicked
