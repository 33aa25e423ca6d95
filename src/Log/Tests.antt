-- ===== src/Log/Tests.antt =====
-- The level of some settings of the environment, and a log of the default level.
use cpp_interface.Prelude.{◌≡◌, refl, none, some, [], ◌∷◌}
use cpp_interface.Log.{
  warning_level, debug_level, none_level, log_level, debug_text, none_text, Output, prefix, info,
  warning,
}

of_debug_text : log_level (some debug_text) ≡ debug_level
unfolding log_level
of_debug_text = refl

of_none_text : log_level (some none_text) ≡ none_level
unfolding log_level
of_none_text = refl

of_no_text : log_level none ≡ warning_level
unfolding log_level
of_no_text = refl

abbrev empty : Output
empty = record { stdout = []; stderr = [] }

info_is_dropped :
    info warning_level (5 ∷ []) (warning warning_level [] empty)
    ≡ record { stdout = []; stderr = prefix warning_level }
unfolding info warning
info_is_dropped = refl
