-- ===== src/Sampler.antt =====
-- SamplerBuilder (lib/Core/Sampler.cpp, include/opencrun/Core/Sampler.h) and clCreateSampler
-- (tools/libOpenCRun/Sampler.cpp). Of a device only its image support is asked.
pub mod Created
use open_crun.Prelude.{
  ℕ, Bool, true, false, not, ◌||◌, List, [], ◌∷◌, Option, none, some, if◌then◌else◌, ◌==◌,
}
use open_crun.Builder.{
  ErrorCode, success, is_success, invalid_value, invalid_context, invalid_operation,
}

-- Sampler::NoAddressing and Sampler::NoFilter
abbrev pub no_mode : ℕ
no_mode = 0

pub record Sampler : Type 0 where
  pub context : ℕ
  pub normalized_coords : Bool
  pub addr_mode : ℕ
  pub fltr_mode : ℕ

pub record SamplerBuilder : Type 0 where
  pub context : ℕ
  pub err_code : ErrorCode
  pub normalized_coords : Bool
  pub addr_mode : ℕ
  pub fltr_mode : ℕ

unfoldable pub new : ℕ → SamplerBuilder
new ctx = record {
  context = ctx;
  err_code = success;
  normalized_coords = false;
  addr_mode = no_mode;
  fltr_mode = no_mode;
}

unfoldable pub notify_error : ErrorCode → SamplerBuilder → SamplerBuilder
notify_error e b = record b { err_code = e }

unfoldable pub set_normalized_coords : Bool → SamplerBuilder → SamplerBuilder
set_normalized_coords enabled b = record b { normalized_coords = enabled }

unfoldable pub set_addressing_mode : ℕ → SamplerBuilder → SamplerBuilder
unfolding notify_error
set_addressing_mode mode b =
    if not (b.addr_mode == no_mode)
    then notify_error invalid_value b
    else record b { addr_mode = mode }

unfoldable pub set_filter_mode : ℕ → SamplerBuilder → SamplerBuilder
unfolding notify_error
set_filter_mode mode b =
    if not (b.fltr_mode == no_mode)
    then notify_error invalid_value b
    else record b { fltr_mode = mode }

-- SetAddressNone and its four siblings, by the mode that each sets.
unfoldable pub set_address : ℕ → Bool → SamplerBuilder → SamplerBuilder
unfolding set_addressing_mode
set_address mode enabled b = if enabled then set_addressing_mode mode b else b

-- SetFilterNearest and SetFilterLinear
unfoldable pub set_filter : ℕ → Bool → SamplerBuilder → SamplerBuilder
unfolding set_filter_mode
set_filter mode enabled b = if enabled then set_filter_mode mode b else b

-- The sampler, if any, and the error code.
unfoldable pub create : SamplerBuilder → Option Sampler × ErrorCode
create b = if not (is_success b.err_code) then (none, b.err_code) else (
  some (record {
    context = b.context;
    normalized_coords = b.normalized_coords;
    addr_mode = b.addr_mode;
    fltr_mode = b.fltr_mode;
  }),
  success,
)

-- A context, with whether each of its devices supports images.
pub record Context : Type 0 where
  pub id : ℕ
  pub has_image_support : List Bool

unfoldable pub any_image_support : List Bool → Bool
any_image_support [] = false
any_image_support (b ∷ bs) = b || any_image_support bs

-- The chain of calls on the builder.
unfoldable pub build : ℕ → Bool → ℕ → ℕ → Option Sampler × ErrorCode
unfolding new set_normalized_coords set_address set_filter
build ctx normalized addressing filter = create (
    set_filter 0x1141 (filter == 0x1141) (
      set_filter 0x1140 (filter == 0x1140) (
        set_address 0x1134 (addressing == 0x1134) (
          set_address 0x1133 (addressing == 0x1133) (
            set_address 0x1132 (addressing == 0x1132) (
              set_address 0x1131 (addressing == 0x1131) (
                set_address 0x1130 (addressing == 0x1130)
                  (set_normalized_coords normalized (new ctx)))))))))

unfoldable pub create_sampler : Option Context → Bool → ℕ → ℕ → Option Sampler × ErrorCode
unfolding any_image_support build
create_sampler none normalized addressing filter = (none, invalid_context)
create_sampler (some c) normalized addressing filter =
    if not (any_image_support c.has_image_support)
    then (none, invalid_operation)
    else build c.id normalized addressing filter
