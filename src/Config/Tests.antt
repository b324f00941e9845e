-- ===== src/Config/Tests.antt =====
-- Concrete environments for internal/config/config.go.
use clusterprobe.Prelude.{String, ◌≡◌, ◌↔◌, refl, if◌then◌else◌, str_eq}
use clusterprobe.Go.Int64.{pos}
use clusterprobe.Go.Errors.{GoError, ok, err, msg}
use clusterprobe.Go.Strings.{is_space}
use clusterprobe.Go.Text.{trim, turn_onto, trim_start, join}
use clusterprobe.Go.Numbers.{atoi, digits}
use clusterprobe.Config.{Config, load, config_of, missing_among, require_int}
use clusterprobe.Config.Loading.{IsConfigured, load_iff}

abbrev atoi_error : String → GoError
atoi_error s = msg "invalid syntax"

-- Every variable is ` 4 `, but the log level as given.
abbrev environment : String → String → String
environment level key = if str_eq key "CP_LOG_LEVEL" then level else " 4 "

abbrev four : Config
four = config_of atoi_error (environment "info") (pos 4)

loaded : load atoi_error (environment "info") ≡ ok four
unfolding load require_int missing_among config_of trim turn_onto trim_start is_space atoi digits
loaded = refl

level_missing :
    load atoi_error (environment " ") ≡ err (msg "missing required configuration: CP_LOG_LEVEL")
unfolding load require_int missing_among config_of trim turn_onto trim_start is_space atoi digits
    join
level_missing = refl

load_iff_example :
    (load atoi_error (environment "info") ≡ ok four)
    ↔ IsConfigured atoi_error (environment "info") four
load_iff_example = load_iff atoi_error (environment "info") four
