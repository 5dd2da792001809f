-- ===== src/Sampler/Created.antt =====
-- The samplers that clCreateSampler (tools/libOpenCRun/Sampler.cpp) gives.
use open_crun.Prelude.{ℕ, ◌≡◌, refl, Bool, true, ◌&&◌, some, if◌then◌else◌, ◌==◌, leb, arith}
use open_crun.Builder.{success, is_success}
use open_crun.Sampler.{
  Context, SamplerBuilder, no_mode, new, set_normalized_coords, set_addressing_mode,
  set_filter_mode, set_address, set_filter, create, any_image_support, build, create_sampler,
  notify_error,
}

-- The mode if it lies in a range, else that of no mode.
abbrev pub within : ℕ → ℕ → ℕ → ℕ
within lo hi mode = if leb lo mode && leb mode hi then mode else no_mode

abbrev addressed : ℕ → Bool → ℕ → SamplerBuilder
addressed ctx normalized mode = record {
  context = ctx;
  err_code = success;
  normalized_coords = normalized;
  addr_mode = mode;
  fltr_mode = no_mode;
}

set_address-all :
    (ctx : ℕ) (normalized : Bool) (mode : ℕ)
    → set_address 0x1134 (mode == 0x1134) (
        set_address 0x1133 (mode == 0x1133) (
          set_address 0x1132 (mode == 0x1132) (
            set_address 0x1131
              (mode == 0x1131)
              (set_address 0x1130 (mode == 0x1130) (set_normalized_coords normalized (new ctx))))))
      ≡ addressed ctx normalized (within 0x1130 0x1134 mode)
unfolding set_address set_addressing_mode set_normalized_coords new notify_error
set_address-all ctx normalized mode = ground arith

set_filter-all :
    (ctx : ℕ) (normalized : Bool) (mode filter : ℕ)
    → set_filter 0x1141
        (filter == 0x1141)
        (set_filter 0x1140 (filter == 0x1140) (addressed ctx normalized mode))
      ≡ record {
        context = ctx;
        err_code = success;
        normalized_coords = normalized;
        addr_mode = mode;
        fltr_mode = within 0x1140 0x1141 filter;
      }
unfolding set_filter set_filter_mode notify_error
set_filter-all ctx normalized mode filter = ground arith

-- In a context with a device that supports images, clCreateSampler gives a sampler and no error for
-- every addressing and filter mode: the modes of the sampler are those that were asked if they are
-- modes of OpenCL, and no mode otherwise.
pub create_sampler_modes :
    (c : Context) (normalized : Bool) (addressing filter : ℕ)
    → any_image_support c.has_image_support ≡ true
    → create_sampler (some c) normalized addressing filter ≡ (
      some (record {
        context = c.id;
        normalized_coords = normalized;
        addr_mode = within 0x1130 0x1134 addressing;
        fltr_mode = within 0x1140 0x1141 filter;
      }),
      success,
    )
unfolding create_sampler build create is_success
create_sampler_modes c normalized addressing filter able =
    rw
      (
        able,
        set_address-all c.id normalized addressing,
        set_filter-all c.id normalized (within 0x1130 0x1134 addressing) filter,
      )
      refl
