-- ===== src/Files/Cache.antt =====
-- FileExtractor::requestClearFileCache of src/file_extractor.cpp.
use phntm_bridge.Prelude.{Bool, true, false, ◌++◌, Str, codes, nat_eq, if◌then◌else◌}
use phntm_bridge.Files.{Curl, no_handle, failed, answered}

-- The response of the service std_srvs/srv/Trigger.
pub record Response : Type 0 where
  pub success : Bool
  pub message : Str

unfoldable request_clear_file_cache : Curl → Response
request_clear_file_cache no_handle = record {
  success = false;
  message = codes "Failed to initialize CURL for file cache clear";
}
request_clear_file_cache (failed err) = record {
  success = false;
  message = codes "CURL error: " ++ err;
}
request_clear_file_cache (answered code body) =
    if nat_eq code 200
    then record { success = true; message = body }
    else record { success = false; message = body }
