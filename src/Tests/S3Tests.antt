-- ===== src/Tests/S3Tests.antt =====
-- repo/s3: the theorems at concrete inputs.
use openspmregistry.Prelude.{
  ℕ, ◌≢◌, ◌≡◌, refl, arith, true, false, none, some, List, [], ◌∷◌, Result, ok, All,
}
use openspmregistry.Strings.{Bytes, codes, join, eq_bytes}
use openspmregistry.Strings.Paths.Plain.{Plain}
use openspmregistry.Config.{S3Config}
use openspmregistry.Models.Element.{UploadElement, source_archive, new_upload_element, file_name}
use openspmregistry.Repo.Laws.{RemoveLaws, WriterLaws}
use openspmregistry.S3.Keys.{build_element_key, parse_scope_name_version}
use openspmregistry.S3.Keys.RoundTrip.{PrefixOf, parse_scope_name_version-build_element_key}
use openspmregistry.S3.Client.{Listing, exists, get_reader, get_writer, write, close}
use openspmregistry.S3.Pages.{present, list_common_prefixes}
use openspmregistry.S3.Pages.Chains.{last, concat_map, list_common_prefixes-Chain}
use openspmregistry.S3.Backend.{s3_repo, checksum}
use openspmregistry.S3.Backend.Storing.{close-get_reader}
use openspmregistry.S3.Backend.Writing.{Buffers, KeysDiffer, s3_repo-Laws}
use openspmregistry.Strings.Cutting.{Lacks}
use openspmregistry.Files.Archive.{in_manifest_dir}
use openspmregistry.Tests.Memory.{platform}
use openspmregistry.Tests.Bucket.{Bucket, bucket, bucket-ServiceLaws, bucket-IsolationLaws, formats}

abbrev cfg : S3Config
cfg = record {
  bucket = codes "b";
  region = [];
  prefix = codes "p";
  profile = [];
  endpoint = [];
  use_path_style = false;
}

letter-Plain : (c : ℕ) → c ≢ b'/' → c ≢ b'.' → Plain (c ∷ [])
letter-Plain c not_slash not_dot = record {
  full = refl;
  not_dot = unfold eq_bytes in ground arith;
  not_dots = unfold eq_bytes in ground arith;
  no_slash = (not_slash, tt);
}

cfg-PrefixOf : PrefixOf cfg (codes "p" ∷ [])
cfg-PrefixOf = record {
  spelled = unfold join in refl;
  plain = (letter-Plain b'p' (λ e. omega arith) (λ e. omega arith), tt);
}

abbrev names : List Bytes
names = codes "s" ∷ codes "n" ∷ []

names-Plain : All Plain names
names-Plain = (
  letter-Plain b's' (λ e. omega arith) (λ e. omega arith),
  (letter-Plain b'n' (λ e. omega arith) (λ e. omega arith), tt),
)

abbrev pub archive : UploadElement
archive =
    new_upload_element (codes "s") (codes "n") (codes "1") (codes "application/zip") source_archive

archive-Plain :
    All Plain (archive.scope ∷ archive.name ∷ archive.version ∷ file_name platform archive ∷ [])
unfolding file_name new_upload_element eq_bytes
archive-Plain = (
  names-Plain.0,
  (
    names-Plain.1.0,
    (
      letter-Plain b'1' (λ e. omega arith) (λ e. omega arith),
      (
        record {
          full = refl;
          not_dot = refl;
          not_dots = refl;
          no_slash = (
            λ e. omega arith,
            (
              λ e. omega arith,
              (
                λ e. omega arith,
                (
                  λ e. omega arith,
                  (
                    λ e. omega arith,
                    (
                      λ e. omega arith,
                      (λ e. omega arith, (λ e. omega arith, (λ e. omega arith, tt))),
                    ),
                  ),
                ),
              ),
            ),
          );
        },
        tt,
      ),
    ),
  ),
)

parse_scope_name_version-build_element_key_example :
    parse_scope_name_version cfg (build_element_key platform cfg archive)
    ≡ some (archive.scope, archive.name, archive.version)
parse_scope_name_version-build_element_key_example =
    parse_scope_name_version-build_element_key platform cfg (codes "p" ∷ []) archive cfg-PrefixOf
      archive-Plain

abbrev one_object : Bucket
one_object = (codes "p/s/", (codes "PK", [])) ∷ []

abbrev page : Listing
page = record {
  common_prefixes = some (codes "p/s/") ∷ [];
  contents = some (codes "p/s/") ∷ [];
  is_truncated = some false;
  next_continuation_token = none;
}

list_common_prefixes-Chain_example :
    list_common_prefixes bucket one_object 1 (codes "p/")
    ≡ some (ok (concat_map (λ out. present out.common_prefixes) (page ∷ [])))
list_common_prefixes-Chain_example =
    list_common_prefixes-Chain bucket one_object (codes "p/") (page ∷ []) 1 (last refl refl)
      (omega arith)

s3_repo-Laws_example :
    RemoveLaws (s3_repo bucket platform cfg formats 1 0) none
    × WriterLaws
        (s3_repo bucket platform cfg formats 1 0)
        none
        (λ w f got s. Buffers bucket platform cfg formats 1 0 w f got)
        (KeysDiffer bucket platform cfg formats 1 0)
s3_repo-Laws_example =
    s3_repo-Laws bucket platform cfg formats 1 0 bucket-ServiceLaws bucket-IsolationLaws
      (λ key s. refl) none

abbrev stored : Result (Unit {0}) × Bucket
stored =
    close bucket formats.digest (write (get_writer bucket platform cfg archive) (codes "PK")) []

stored_fine : stored ≡ (ok tt, stored.1)
unfolding close
stored_fine = refl

close-get_reader_example :
    (exists bucket platform cfg archive (stored.1) ≡ true)
    × (get_reader bucket platform cfg archive (stored.1) ≡ ok (codes "PK"))
    × (checksum bucket platform cfg formats 1 0 archive (stored.1)
        ≡ ok (formats.digest (codes "PK")))
close-get_reader_example =
    close-get_reader bucket platform cfg formats 1 0 bucket-ServiceLaws archive (codes "PK") []
      (stored.1) refl stored_fine

dir_accepted : in_manifest_dir archive (codes "s.n") ≡ true
unfolding in_manifest_dir eq_bytes new_upload_element
dir_accepted = refl

s_n-Lacks : Lacks b'/' (codes "s.n")
s_n-Lacks = (λ e. omega arith, (λ e. omega arith, (λ e. omega arith, tt)))

n_1-Lacks : Lacks b'/' (codes "n-1")
n_1-Lacks = (λ e. omega arith, (λ e. omega arith, (λ e. omega arith, tt)))
