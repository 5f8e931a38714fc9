-- ===== src/Error.antt =====
-- enova/common/error.py: the error classes, their codes and messages, and the constructor.
use mathlib.Core.Option.{get_or}
use Prim.Native.String.{◌++◌ as str_append}
use enova.Prelude.{
  ℕ, ◌+◌, ◌*◌, ◌-◌, String, List, [], ◌∷◌, Option, none, some, if◌then◌else◌, str_eq,
}
use enova.Prelude.Text.{codes}

-- The classes. `base` is `EmergingAIBaseError` itself.
pub data ErrorClass : Type 0 where
  base args_error translation api_response api_params escaler_api_response instance_exist
        instance_not_exist instance_create_failed test_not_exist jmeter_container_launch test_start
        data_file_not_exist not_ready backend_config_missing :
      ErrorClass

-- `ERROR_CODE` of a class.
abbrev pub error_code : ErrorClass → String
error_code base = "000"
error_code args_error = "001"
error_code translation = "091"
error_code api_response = "010"
error_code api_params = "011"
error_code escaler_api_response = "101"
error_code instance_exist = "401"
error_code instance_not_exist = "402"
error_code instance_create_failed = "403"
error_code test_not_exist = "403"
error_code jmeter_container_launch = "404"
error_code test_start = "406"
error_code data_file_not_exist = "407"
error_code not_ready = "101"
error_code backend_config_missing = "102"

-- `ERROR_MESSAGE` of a class.
abbrev pub error_message : ErrorClass → String
error_message base = ""
error_message args_error = "args error"
error_message translation = "translation error"
error_message api_response = "response error"
error_message api_params = "response error"
error_message escaler_api_response = "node api response error"
error_message instance_exist = "deployment workload had existed"
error_message instance_not_exist = "deployment workload is not exist"
error_message instance_create_failed = "deployment workload create failed"
error_message test_not_exist = "test record is not exist"
error_message jmeter_container_launch = "fail to launch jmeter container"
error_message test_start = "test start failed"
error_message data_file_not_exist = "data file not existed"
error_message not_ready = "support service not ready"
error_message backend_config_missing = "backend default config missing"

abbrev number_from : ℕ → List ℕ → ℕ
number_from n [] = n
number_from n (c ∷ cs) = number_from (n * 10 + (c - 48)) cs

-- `int(s)` of a text of digits.
abbrev pub int : String → ℕ
int s = number_from 0 (codes s)

-- `CONFIG.BASIC_ERROR_CODE or "100"` and `CONFIG.MODULE_CODE or "001"`.
pub record ErrorConfig : Type 0 where
  pub basic_error_code : Option String
  pub module_code : Option String

abbrev pub or_else : Option String → String → String
or_else none d = d
or_else (some s) d = if str_eq s "" then d else s

-- What `EmergingAIBaseError.__init__` stores.
pub record Error : Type 0 where
  pub class : ErrorClass
  pub error_code : String
  pub message : String
  pub code : ℕ

unfoldable pub init : ErrorConfig → ErrorClass → Option String → Option String → Error
init config class message given_code =
    let own = get_or given_code (error_code class) in
    let full =
      str_append
        (str_append (or_else config.basic_error_code "100") (or_else config.module_code "001"))
        own in
    record {
      class = class;
      error_code = full;
      message = get_or message (error_message class);
      code = int full;
    }
