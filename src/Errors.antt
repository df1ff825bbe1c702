-- ===== src/Errors.antt =====
-- crates/himadri-core/src/error.rs and crates/himadri-provider/src/error.rs: the two error types,
-- their HTTP statuses and the mapping from a provider's error to the gateway's.
use Prim.Native.String.{◌++◌}
use himadri.Common.{
  ℕ, ◌≡◌, ◌≢◌, ◌↔◌, arith, String, Bool, true, false, ◌&&◌, ◌||◌, leb, ltb, ◌==◌, if◌then◌else◌,
}

-- A `ConfigError` is carried by its text.
pub data GatewayError : Type 0 where
  provider_not_found : String → GatewayError
  circuit_open : String → GatewayError
  rate_limited : ℕ → GatewayError
  quota_exceeded : String → GatewayError
  unauthorized : GatewayError
  forbidden : String → GatewayError
  not_found : String → GatewayError
  bad_request : String → GatewayError
  provider : String → GatewayError
  config : String → GatewayError
  internal : String → GatewayError
  service_unavailable : String → GatewayError

unfoldable pub status_code : GatewayError → ℕ
status_code (provider_not_found _) = 404
status_code (circuit_open _) = 503
status_code (rate_limited _) = 429
status_code (quota_exceeded _) = 429
status_code unauthorized = 401
status_code (forbidden _) = 403
status_code (not_found _) = 404
status_code (bad_request _) = 400
status_code (provider _) = 500
status_code (config _) = 400
status_code (internal _) = 500
status_code (service_unavailable _) = 503

unfoldable pub retryable : GatewayError → Bool
retryable (circuit_open _) = true
retryable (rate_limited _) = true
retryable (service_unavailable _) = true
retryable _ = false

pub data ProviderError : Type 0 where
  auth : String → ProviderError
  rate_limited : ℕ → ProviderError
  model_not_found : String → ProviderError
  context_length_exceeded : (max actual : ℕ) → ProviderError
  api : (status : ℕ) (message : String) → ProviderError
  network : String → ProviderError
  parse : String → ProviderError
  internal : String → ProviderError
  unsupported : String → ProviderError
  unknown_type : String → ProviderError
  missing_base_url : String → ProviderError
  invalid_configuration : String → ProviderError

-- The statuses of an `Api` error that are worth a failover.
abbrev pub retryable_status : ℕ → Bool
retryable_status s = s == 500 || s == 502 || s == 503 || s == 504 || s == 529

unfoldable pub provider_retryable : ProviderError → Bool
provider_retryable (ProviderError.rate_limited _) = true
provider_retryable (network _) = true
provider_retryable (api status _) = retryable_status status
provider_retryable _ = false

unfoldable pub provider_status_code : ProviderError → ℕ
provider_status_code (auth _) = 401
provider_status_code (ProviderError.rate_limited _) = 429
provider_status_code (model_not_found _) = 404
provider_status_code (context_length_exceeded _ _) = 400
provider_status_code (api status _) = status
provider_status_code (network _) = 502
provider_status_code (parse _) = 500
provider_status_code (ProviderError.internal _) = 500
provider_status_code (unsupported _) = 501
provider_status_code (unknown_type _) = 400
provider_status_code (missing_base_url _) = 400
provider_status_code (invalid_configuration _) = 400

-- `format!` of two numbers is a parameter: the printing of integers is the library's.
module _ (length_message : ℕ → ℕ → String) where
  unfoldable pub from_provider_error : ProviderError → GatewayError
  from_provider_error (auth _) = service_unavailable "upstream provider authentication failed"
  from_provider_error (ProviderError.rate_limited s) = GatewayError.rate_limited s
  from_provider_error (model_not_found m) = not_found ("model: " ++ m)
  from_provider_error (context_length_exceeded max actual) = bad_request (length_message max actual)
  from_provider_error (api status message) =
      if status == 401 || status == 403
      then service_unavailable "upstream provider authentication failed"
      else if status == 429
      then GatewayError.rate_limited 60
      else if leb 400 status && ltb status 500
      then bad_request message
      else service_unavailable message
  from_provider_error (network m) = service_unavailable m
  from_provider_error (parse m) = provider ("parse error: " ++ m)
  from_provider_error (ProviderError.internal m) = GatewayError.internal m
  from_provider_error (unsupported m) = bad_request ("operation not supported: " ++ m)
  from_provider_error (unknown_type m) = bad_request ("unknown provider type: " ++ m)
  from_provider_error (missing_base_url m) = bad_request ("missing base_url for provider: " ++ m)
  from_provider_error (invalid_configuration m) =
      bad_request ("invalid provider configuration: " ++ m)

  -- The conversion of a provider's error into one of the gateway: the status of what it gives is never 401
  -- or 403, which would blame the client for the gateway's own key; it is 429 exactly when the status of the
  -- provider's error is 429; and for an error that allows a failover it is not 400 or 404, the client's own
  -- mistakes. A path that does not use this conversion is not spoken of.
  pub from_provider_error_status :
      (e : ProviderError)
      → (status_code (from_provider_error e) ≢ 401)
        × (status_code (from_provider_error e) ≢ 403)
        × ((status_code (from_provider_error e) ≡ 429) ↔ (provider_status_code e ≡ 429))
        × (provider_retryable e ≡ true
            → (status_code (from_provider_error e) ≢ 400)
              × (status_code (from_provider_error e) ≢ 404))
  unfolding from_provider_error status_code provider_status_code provider_retryable
  from_provider_error_status (auth m) = ground arith
  from_provider_error_status e = ground arith
