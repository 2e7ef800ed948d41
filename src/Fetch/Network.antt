-- ===== src/Fetch/Network.antt =====
-- What the adapters use of Python's library and of httpx. All of it is a parameter of the model.
use wyndpy.Base.{ℕ, String, List, [], Option, Bool, false}
use wyndpy.Base.Reply.{Reply, ok, raised}
use wyndpy.Base.Url.{UrlParser}
use wyndpy.Base.Value.{Value, Float}
use wyndpy.Core.Results.{Bytes}

pub record IpAddress : Type 0 where
  pub is_private : Bool
  pub is_loopback : Bool
  pub is_link_local : Bool

-- `url` is the URL after redirects. `raise_for_status` gives the exception of that method, if the
-- status is an error's, and `json` what the method of that name gives.
pub record Response : Type 0 where
  pub url : String
  pub status_code : ℕ
  pub content_type : Option String
  pub content : Bytes
  pub text : String
  pub raise_for_status : Reply (Unit {0})
  pub json : Reply Value

-- `ipaddress`, `socket` and `hashlib`, the clock, and the texts that the language computes.
-- `encode` is to UTF-8, and raises for a text with a lone surrogate.
-- `gethostbyname` runs in the thread of a pool and is given a time limit in seconds. `repr` is how
-- a value that is not a text is printed.
pub record Platform (W : Type 0) : Type 0 where
  pub urlparse : UrlParser
  pub ip_address : String → Reply IpAddress
  pub gethostbyname : ℕ → String → W → Reply String × W
  pub sha256 : Bytes → String
  pub encode : String → Reply Bytes
  pub lower : String → String
  pub repr : Value → String
  pub float : Value → Reply Float
  pub now : W → ℕ
  pub sleep : ℕ → W → Reply (Unit {0}) × W

-- `RetrievalResult.hash_body` of wyndpy/core/results.py; `sha256` is with the hexadecimal digest.
abbrev pub hash_body : {W : Type 0} → Platform W → Bytes → String
hash_body os raw = os.sha256 raw

-- `httpx.AsyncClient`: `new_client` takes the timeout, the headers, and whether redirects are
-- followed. `post` takes the URL, the headers and the JSON body.
pub record Http (W C : Type 0) : Type 0 where
  pub new_client : Float → List (String × String) → Bool → W → C × W
  pub get : C → String → List (String × String) → W → Reply Response × W
  pub post : C → String → List (String × String) → Value → W → Reply Response × W
  pub upload :
      C → String → List (String × String) → String → Bytes → String → W → Reply Response × W
  pub aclose : C → W → Reply (Unit {0}) × W

-- What `__aexit__` leaves of the block's outcome: an exception of closing takes its place.
abbrev pub on_exit : {A : Type 0} → Reply (Unit {0}) → Reply A → Reply A
on_exit (ok _) outcome = outcome
on_exit (raised e) outcome = raised e

-- `async with httpx.AsyncClient(timeout=timeout_s) as client: ...`
unfoldable pub using_client :
    {W C A : Type 0} → Http W C → Float → (C → W → Reply A × W) → W → Reply A × W
using_client http timeout_s body w =
    let (c, w1) = http.new_client timeout_s [] false w in
    let (outcome, w2) = body c w1 in
    let (closed, w3) = http.aclose c w2 in (on_exit closed outcome, w3)
