-- ===== src/Config/Tests.antt =====
-- The theorems of the configuration, on a system with a user file and one environment variable.
use holonomy_source.Common.{String, Option, none, some, str_eq, if◌then◌else◌}
use holonomy_source.Config.{default_policy, Configuration, default_configuration}
use holonomy_source.Config.Resolve.{System}

-- A file with the salt as its content.
abbrev salted : String → Configuration
salted s = record default_configuration {
  policy = some (record default_policy { hash_salt = some s });
}

abbrev read_salt : String → Option Configuration
read_salt s = some (salted s)

abbrev system : System
system = record {
  read_to_string =
      λ path. if str_eq path "/home/ann/.config/holonomy/config.toml" then some "user" else none;
  var = λ name.
      if str_eq name "HOME"
      then some "/home/ann"
      else if str_eq name "HOLONOMY_CACHE_TTL_HOURS"
      then some "6"
      else none;
  current_dir = none;
  project_file = λ dir. none;
}
