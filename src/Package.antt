-- ===== src/Package.antt =====
-- wyndpy/__init__.py: the version of the package. The other names are passed on from its modules.
use wyndpy.Base.{String, Option, none, some}

-- `importlib.metadata.version("wyndpy")`, where `none` is its `PackageNotFoundError`.
abbrev pub package_version : Option String → String
package_version (some version) = version
package_version none = "0.0.0+unknown"
