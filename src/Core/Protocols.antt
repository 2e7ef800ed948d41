-- ===== src/Core/Protocols.antt =====
-- The protocols behind which every adapter stands: fetch, search, parse, trust and registry. A
-- call may change the world `W` outside the library, and may raise.
use wyndpy.Base.{ℕ, String, List, Option, Bool}
use wyndpy.Base.Reply.{Reply}
use wyndpy.Core.Results.{Bytes, Retrieval, Candidate}
use wyndpy.Core.Item.{ResolvableItem}

-- `object_id` is the object's identity, what `id(fetcher)` gives.
pub record Fetcher (W : Type 0) : Type 0 where
  pub object_id : ℕ
  pub name : String
  pub fetch : String → W → Reply Retrieval × W

pub record Searcher (W : Type 0) : Type 0 where
  pub name : String
  pub search : String → ℕ → W → Reply (List Candidate) × W

pub record Parser (W : Type 0) : Type 0 where
  pub name : String
  pub parse : Bytes → String → W → Reply Retrieval × W

pub record TrustStrategy (W : Type 0) : Type 0 where
  pub is_trusted : Candidate → W → Reply Bool × W

pub record Registry (W : Type 0) : Type 0 where
  pub get : String → W → Reply (Option ResolvableItem) × W
  pub upsert : ResolvableItem → W → Reply (Unit {0}) × W
  pub list_pending_discovery : W → Reply (List ResolvableItem) × W
