-- ===== src/Tests/Errors.antt =====
-- crates/himadri-core/src/error.rs and crates/himadri-provider/src/error.rs on concrete errors.
use himadri.Common.{ℕ, ◌≡◌, ◌≢◌, ◌↔◌, refl, true, String}
use himadri.Errors.{
  ProviderError, api, from_provider_error, status_code, provider_status_code, provider_retryable,
  from_provider_error_status,
}

abbrev no_message : ℕ → ℕ → String
no_message max actual = "too long"

abbrev overloaded : ProviderError
overloaded = api 529 "overloaded"

from_provider_error_status_example :
    (status_code (from_provider_error no_message overloaded) ≢ 401)
    × (status_code (from_provider_error no_message overloaded) ≢ 403)
    × ((status_code (from_provider_error no_message overloaded) ≡ 429)
        ↔ (provider_status_code overloaded ≡ 429))
    × (provider_retryable overloaded ≡ true
        → (status_code (from_provider_error no_message overloaded) ≢ 400)
          × (status_code (from_provider_error no_message overloaded) ≢ 404))
from_provider_error_status_example = from_provider_error_status no_message overloaded

overloaded_unavailable : status_code (from_provider_error no_message overloaded) ≡ 503
unfolding status_code from_provider_error
overloaded_unavailable = refl
