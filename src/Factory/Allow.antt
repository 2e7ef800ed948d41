-- ===== src/Factory/Allow.antt =====
-- wyndpy/factory.py, `_normalize_allow`: the policy's allowlist as the fetchers read it.
use wyndpy.Base.{String, List, [], ◌∷◌, ◌++◌, not, ◌&&◌, contains, ◌==◌, string_eq, if◌then◌else◌}
use wyndpy.Base.Text.{lstrip_glob}

-- The loop, on the list `normalized` so far.
unfoldable pub normalize_from : List String → List String → List String
normalize_from normalized [] = normalized
normalize_from normalized (raw ∷ domains) =
    let domain = lstrip_glob raw in
    normalize_from
      (if not (domain == "") && not (contains normalized domain)
        then normalized ++ domain ∷ []
        else normalized)
      domains

unfoldable pub normalize_allow : List String → List String
unfolding normalize_from
normalize_allow domains = normalize_from [] domains
