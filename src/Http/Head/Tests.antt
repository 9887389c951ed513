-- ===== src/Http/Head/Tests.antt =====
-- The head handler at a concrete input.
use mini_web_srv.Base.{List, [], ◌∷◌, ◌++◌, Bytes, codes, replicate}
use mini_web_srv.ReadBuff.{Buff}
use mini_web_srv.Http.RequestLine.{Request, unknown, version_10, version_11, parse_method}
use mini_web_srv.Http.RequestLine.RoundTrip.{plain_line}

abbrev storage : Buff
storage = record { mem = replicate 64 0; read_pos = 0; relevant = 0; data_end = 0; req_end = 64 }

abbrev fresh : Request
fresh = record { method = unknown; resource = []; query = []; version = version_11 }

abbrev requested : Request
requested = record {
  method = parse_method (codes "GET");
  resource = codes "/a";
  query = [];
  version = version_10;
}

abbrev line : Bytes
line = plain_line (codes "GET") (codes "/a") version_10

abbrev lines : List Bytes
lines = codes "Host: b\r" ∷ []

-- The read is cut in the header's name, and the next request has begun.
abbrev reads : List Bytes
reads = (line ++ codes "\nHo") ∷ codes "st: b\r\n\r\nGET" ∷ []
