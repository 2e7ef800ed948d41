-- ===== src/Core/Item.antt =====
-- wyndpy/core/item.py: the one shape that the core operates on.
use wyndpy.Base.{String, List, [], Option, none}
use wyndpy.Base.Value.{Fields}

pub data ItemStatus : Type 0 where
  resolved unresolved fetch_exhausted pending_discovery pending_review : ItemStatus

-- `discovered_urls_seen` is a set: it is used through `contains` and `add` only.
pub record ResolvableItem : Type 0 where
  pub id : String
  pub query_hint : String
  pub current_sources : List String
  pub metadata : Fields
  pub status : ItemStatus
  pub last_content_hash : Option String
  pub candidate_sources : List String
  pub discovered_urls_seen : List String

-- `ResolvableItem(id=id, query_hint=query_hint)`
abbrev pub new_item : String → String → ResolvableItem
new_item id query_hint = record {
  id = id;
  query_hint = query_hint;
  current_sources = [];
  metadata = Fields.no_fields;
  status = pending_discovery;
  last_content_hash = none;
  candidate_sources = [];
  discovered_urls_seen = [];
}
