-- ===== src/Version.antt =====
-- version/version.go. The library that parses a semantic version is a parameter, and so is the
-- formatting of a number by the verb `%d`.
use k8s_glb_operator.Base.{ℕ, String, ◌<>◌}
use k8s_glb_operator.Api.{Result, ok, ◌>>=◌}

-- The variable `Version`, which nothing assigns.
abbrev pub version : String
version = "0.1.0"

-- What the code reads of a `semver.Version`; its numbers are `uint64`.
pub record SemVersion : Type 0 where
  pub major : ℕ
  pub minor : ℕ

unfoldable pub get_major_and_minor_version :
    (String → Result SemVersion) → (ℕ → String) → Result String
get_major_and_minor_version parse show = do
  sem_version ← parse version
  ok (show sem_version.major <> "." <> show sem_version.minor)
