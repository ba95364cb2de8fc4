-- ===== src/Client/Clock.antt =====
-- include/xrtransport/time.h on Linux, and the two conversions of src/client/entry.cpp. Sums and
-- products are exact, as in Client/Sync.
use xrtransport.Common.{
  ℕ, ◌<◌, ◌≡◌, ◌≢◌, refl, arith, ◌⊎◌, inl, inr, Bool-cases, ◌==◌, Option, none, some, if◌then◌else◌,
}
use xrtransport.Common.Int.{ℤ, pos, negsuc, ◌+ℤ◌, ◌*ℤ◌, quotient, remainder}
use xrtransport.Xr.{XrResult, success, error_handle_invalid}

-- `struct timespec`
pub record Timespec : Type 0 where
  pub tv_sec : ℤ
  pub tv_nsec : ℤ

unfoldable pub convert_from_platform_time : Timespec → ℤ
convert_from_platform_time p = p.tv_sec *ℤ pos 1000000000 +ℤ p.tv_nsec

unfoldable pub convert_to_platform_time : ℤ → Timespec
convert_to_platform_time t = record {
  tv_sec = quotient t 1000000000;
  tv_nsec = remainder t 1000000000;
}

-- The entry points: the result, and what is stored through the pointer.
unfoldable pub xr_convert_timespec_time_to_time_impl : ℕ → ℕ → Timespec → XrResult × Option ℤ
xr_convert_timespec_time_to_time_impl saved_instance handle p =
    if handle == saved_instance
    then (success, some (convert_from_platform_time p))
    else (error_handle_invalid, none)

unfoldable pub xr_convert_time_to_timespec_time_impl : ℕ → ℕ → ℤ → XrResult × Option Timespec
xr_convert_time_to_timespec_time_impl saved_instance handle t =
    if handle == saved_instance
    then (success, some (convert_to_platform_time t))
    else (error_handle_invalid, none)

from-to : (t : ℤ) → convert_from_platform_time (convert_to_platform_time t) ≡ t
unfolding convert_from_platform_time convert_to_platform_time quotient remainder ◌+ℤ◌ ◌*ℤ◌
from-to (pos n) = ground arith
from-to (negsuc n) = ground arith

abbrev pub timespec : ℕ → ℕ → Timespec
timespec s n = record { tv_sec = pos s; tv_nsec = pos n }

to-from :
    (s n : ℕ)
    → n < 1000000000
    → convert_to_platform_time (convert_from_platform_time (timespec s n)) ≡ timespec s n
unfolding convert_from_platform_time convert_to_platform_time quotient remainder ◌+ℤ◌ ◌*ℤ◌
to-from s n h = ground arith

-- For the instance that was created, a time that is converted to a `timespec` and back is as it was,
-- negative times included, and so is a `timespec` with a number of nanoseconds below a second. For
-- any other handle both entry points refuse and store nothing.
pub timespec_round_trip :
    (saved_instance handle : ℕ) (t : ℤ) (s n : ℕ)
    → n < 1000000000
    → let to = xr_convert_time_to_timespec_time_impl saved_instance handle in
      let from = xr_convert_timespec_time_to_time_impl saved_instance handle in
      (to t ≡ (error_handle_invalid, none))
        × (from (timespec s n) ≡ (error_handle_invalid, none))
        × (handle ≢ saved_instance)
      ⊎ ((p : Timespec) × (to t ≡ (success, some p)) × (from p ≡ (success, some t)))
        × ((u : ℤ) × (from (timespec s n) ≡ (success, some u))
            × (to u ≡ (success, some (timespec s n))))
unfolding xr_convert_time_to_timespec_time_impl xr_convert_timespec_time_to_time_impl
timespec_round_trip saved_instance handle t s n h = elim (Bool-cases (handle == saved_instance)) [
  | inl y ↦ rw y (
      inr (
        (convert_to_platform_time t, refl, rw (from-to t) refl),
        (convert_from_platform_time (timespec s n), refl, rw (to-from s n h) refl),
      ))
  | inr z ↦ rw z (inl (refl, refl, λ e. ground (arith, z)))
]
