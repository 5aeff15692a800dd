-- ===== src/Tests/StoringTests.antt =====
-- Writing and reading a file of a Maven repository: the theorem at a concrete input.
use openspmregistry.Prelude.{
  ℕ, Option, none, some, [], Result, ok, err, leb, if◌then◌else◌, length, take, drop,
}
use openspmregistry.Int.{ℤ, pos, negsuc}
use openspmregistry.Strings.{Bytes, codes, eq_bytes}
use openspmregistry.Maven.Client
use openspmregistry.Maven.Client.{HttpClient, Response, Call}
use openspmregistry.Maven.Reader.{no_error, end_of_file}
use openspmregistry.Maven.Content.{Bodies}
use openspmregistry.Tests.BackendTests.{answering}

-- the files by their urls
abbrev Files : Type 0
Files = Bytes → Option Bytes

abbrev answer_of : Option Bytes → Response
answer_of none = record { status = 404; header = λ name. []; body = ok [] }
answer_of (some text) = answering text

abbrev range_of : Option Bytes → Result (ℕ × Bytes)
range_of none = err (codes "not found")
range_of (some text) = ok (206, text)

-- a server of files, which does not support ranges
abbrev server : HttpClient Files
server = record {
  new_request = λ url. ok tt;
  head = λ call s. ok (answer_of (s call.url));
  get = λ call s. ok (answer_of (s call.url));
  put =
      λ call s. (ok (answering []), λ url. if eq_bytes url call.url then some call.body else s url);
  delete = λ call s. (ok (answering []), λ url. if eq_bytes url call.url then none else s url);
}

abbrev size_of : Result Bytes → ℤ
size_of (err _) = negsuc 0
size_of (ok text) = pos (length text)

abbrev bodies : Bodies Files Bytes
bodies = record {
  content_length = λ response. size_of response.body;
  get_range = λ call range s. err (codes "not supported");
  read_body = λ b n. (take n b, (if leb (length b) n then end_of_file else no_error, drop n b));
  close_body = λ b. ok tt;
  room = λ n. 1;
}

abbrev file : Bytes → Files → Option Bytes
file path s = s path

abbrev length_of : Result Response → ℤ
length_of (err _) = negsuc 0
length_of (ok response) = size_of response.body

abbrev empty : Files
empty url = none
