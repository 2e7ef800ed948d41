-- ===== src/Fetch/SmallWorld.antt =====
-- A small world for the tests, which tells of each client whether it is open, and notes the requests.
use wyndpy.Base.{
  ℕ, zero, suc, Bool, String, List, [], ◌∷◌, true, false, none, some, ◌||◌, ◌==◌, string_eq, ℕ_eq,
  if◌then◌else◌,
}
use wyndpy.Base.Reply.{value_error, http_timeout, Reply, ok, raised}
use wyndpy.Base.Url.{Url, UrlParser}
use wyndpy.Base.Value.{null}
use wyndpy.Fetch.Network.{IpAddress, Response, Platform, Http}
use wyndpy.Fetch.Httpx.{HttpxFetcher, default_timeout_s}

pub record World : Type 0 where
  pub clients : List Bool
  pub requests : List String

-- `urlparse`, for the URLs below.
abbrev pub parts_of : String → Url
parts_of url =
    if url == "https://a.example/p" || url == "https://a.example/f.pdf"
    then record { scheme = "https"; hostname = some "a.example" }
    else if url == "https://10.0.0.1/"
    then record { scheme = "https"; hostname = some "10.0.0.1" }
    else record { scheme = "http"; hostname = some "b.example" }

abbrev pub parse_url : UrlParser
parse_url url = ok (parts_of url)

abbrev pub outside : IpAddress
outside = record { is_private = false; is_loopback = false; is_link_local = false }

abbrev pub inside : IpAddress
inside = record { is_private = true; is_loopback = false; is_link_local = false }

abbrev pub read_ip : String → Reply IpAddress
read_ip text =
    if text == "10.0.0.1"
    then ok inside
    else if text == "93.184.216.34"
    then ok outside
    else raised (value_error "no address")

abbrev pub platform : Platform World
platform = record {
  urlparse = parse_url;
  ip_address = read_ip;
  gethostbyname = λ limit host w. (ok "93.184.216.34", w);
  sha256 = λ body. "digest";
  encode = λ s. ok [];
  lower = λ s. s;
  repr = λ v. "";
  float = λ v. raised (value_error "no number");
  now = λ w. 7;
  sleep = λ t w. (ok tt, w);
}

abbrev pub pdf : String → Response
pdf url = record {
  url = url;
  status_code = 200;
  content_type = some "application/pdf";
  content = 37 ∷ 80 ∷ 68 ∷ 70 ∷ [];
  text = "";
  raise_for_status = ok tt;
  json = ok null;
}

abbrev pub open_at : ℕ → List Bool → Bool
open_at c [] = false
open_at zero (b ∷ clients) = b
open_at (suc c) (b ∷ clients) = open_at c clients

abbrev pub shut : ℕ → List Bool → List Bool
shut c [] = []
shut zero (b ∷ clients) = false ∷ clients
shut (suc c) (b ∷ clients) = b ∷ shut c clients

abbrev pub opened : List Bool → ℕ
opened [] = 0
opened (true ∷ clients) = suc (opened clients)
opened (false ∷ clients) = opened clients

abbrev pub size : List Bool → ℕ
size [] = 0
size (_ ∷ clients) = suc (size clients)

abbrev pub add : List Bool → List Bool
add [] = true ∷ []
add (b ∷ clients) = b ∷ add clients

-- A client is its place among the clients. A GET of the page is redirected to another host.
abbrev pub http : Http World ℕ
http = record {
  new_client = λ limit headers redirects w. (size w.clients, record w { clients = add w.clients });
  get = λ c url headers w. (
    ok (pdf (if url == "https://a.example/p" then "http://b.example/" else url)),
    record w { requests = url ∷ w.requests },
  );
  post = λ c url headers body w. (raised (http_timeout "post"), w);
  upload = λ c url headers name body mime w. (raised (http_timeout "upload"), w);
  aclose = λ c w. (ok tt, record w { clients = shut c w.clients });
}

abbrev pub start : World
start = record { clients = []; requests = [] }

-- A fetcher that makes its own client, and keeps at most three bytes.
abbrev pub fetcher : HttpxFetcher ℕ
fetcher = record {
  allowlist_domains = "example" ∷ [];
  timeout_s = default_timeout_s;
  max_bytes = 3;
  user_agent = "wyndpy-fetch/0.1";
  client = none;
  owns_client = true;
}
