-- ===== src/Pipeline/Archive.antt =====
-- packages/ingest/src/raw-source-archive.ts: the archive of the raw sources, less its files. `lower` is
-- `toLowerCase`, `encode` the `TextEncoder`, `sha` the hash of bytes, `now` the time, and `upload` gives
-- the storage id of some bytes.
use Prim.Native.String.{◌++◌ as text_append}
use wtfoc.Prelude.{
  ℕ, String, Bool, false, ◌||◌, Option, none, some, List, [], ◌∷◌, ◌==◌, ◌≡◌, refl, length, filter,
  or_else, if◌then◌else◌, text_has_eq,
}
use wtfoc.Prelude.Dict
use wtfoc.Prelude.Dict.{Dict}
use wtfoc.Prelude.Text.{Text, units, starts_with, contains, after_last_dot, units_have_eq}
use wtfoc.Schema.{truthy}
use wtfoc.Pipeline.{RawSourceEntry, RawSourceIndex}

abbrev pub create_empty_archive_index : String → RawSourceIndex
create_empty_archive_index collection_id = record { collection_id = collection_id; entries = [] }

abbrev pub archive_key : String → String → String
archive_key document_id document_version_id =
    text_append document_id (text_append "@" document_version_id)

abbrev pub has_source_key : String → RawSourceEntry → Bool
has_source_key source_key entry = elim entry.source_key [
  | none ↦ false
  | some key ↦ key == source_key
]

abbrev pub find_entries_by_source_key : RawSourceIndex → String → List RawSourceEntry
find_entries_by_source_key index source_key =
    filter (has_source_key source_key) (Dict.values index.entries)

abbrev pub is_archived : RawSourceIndex → String → String → Bool
is_archived index document_id document_version_id =
    Dict.has (archive_key document_id document_version_id) index.entries

abbrev media_types : Dict Text String
media_types =
    (units "ts", "text/typescript")
    ∷ (units "tsx", "text/typescript")
    ∷ (units "js", "text/javascript")
    ∷ (units "jsx", "text/javascript")
    ∷ (units "md", "text/markdown")
    ∷ (units "mdx", "text/markdown")
    ∷ (units "json", "application/json")
    ∷ (units "yaml", "text/yaml")
    ∷ (units "yml", "text/yaml")
    ∷ (units "toml", "text/toml")
    ∷ (units "py", "text/x-python")
    ∷ (units "go", "text/x-go")
    ∷ (units "rs", "text/x-rust")
    ∷ (units "rb", "text/x-ruby")
    ∷ (units "java", "text/x-java")
    ∷ (units "html", "text/html")
    ∷ (units "css", "text/css")
    ∷ []

-- The type of an extension, if there is a path and its extension is known.
abbrev of_extension : (Text → Text) → Option String → Option String
of_extension lower none = none
of_extension lower (some path) =
    if path == "" then none else Dict.get (lower (after_last_dot [] (units path))) media_types

abbrev of_source_type : Option String → String
of_source_type none = "text/plain"
of_source_type (some t) =
    if starts_with (units t) (units "github-") || t == "hn-story" || t == "hn-comment"
    then "text/markdown"
    else (if contains (units t) (units "message")
        then "text/plain"
        else (if t == "doc-page" then "text/markdown" else "text/plain"))

unfoldable pub infer_media_type : (Text → Text) → Option String → Option String → String
infer_media_type lower file_path source_type =
    or_else (of_extension lower file_path) (of_source_type source_type)

pub record ArchiveOptions : Type 0 where
  pub source_type : String
  pub source_url : Option String
  pub source_key : Option String
  pub file_path : Option String
  pub metadata : Option (Dict String String)

-- What a run takes from outside.
pub record Outside : Type 0 where
  pub lower : Text → Text
  pub encode : String → List ℕ
  pub sha_bytes : List ℕ → String
  pub sha : Text → String
  pub upload : List ℕ → String
  pub now : String
  pub parse_date : String → Option ℕ

abbrev if_truthy : Option String → Option String
if_truthy s = if truthy s then s else none

abbrev if_any : Option (Dict String String) → Option (Dict String String)
if_any none = none
if_any (some []) = none
if_any (some (b ∷ m)) = some (b ∷ m)

abbrev pub archive_entry : Outside → String → String → String → ArchiveOptions → RawSourceEntry
archive_entry w document_id document_version_id content o = record {
  document_id = document_id;
  document_version_id = document_version_id;
  media_type = infer_media_type w.lower o.file_path (some (o.source_type));
  checksum = w.sha_bytes (w.encode content);
  byte_length = length (w.encode content);
  fetched_at = w.now;
  storage_id = w.upload (w.encode content);
  source_type = o.source_type;
  source_url = o.source_url;
  source_key = if_truthy o.source_key;
  metadata = if_any o.metadata;
}

-- A version that is archived is left as it is; the code answers its storage id, or null then.
unfoldable pub archive_raw_source :
    Outside
    → RawSourceIndex
    → String
    → String
    → String
    → ArchiveOptions
    → RawSourceIndex × Option String
archive_raw_source w index document_id document_version_id content o =
    let entry = archive_entry w document_id document_version_id content o in
    if is_archived index document_id document_version_id then (index, none) else (
      record index {
        entries = Dict.set (archive_key document_id document_version_id) entry index.entries;
      },
      some (entry.storage_id),
    )

readme : infer_media_type (λ t. t) (some "docs/read.me.md") none ≡ "text/markdown"
unfolding infer_media_type Dict.get after_last_dot
readme = refl
