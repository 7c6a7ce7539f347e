-- ===== src/Store/Heads.antt =====
-- packages/store/src/manifest/local.ts: `LocalManifestStore`. The files are a map from the names of projects to
-- what is in `{name}.json`; `parse` is `JSON.parse` with the check of the schema and is none if either throws,
-- `serialize` is `JSON.stringify`, and `sha` hashes a text. A valid name has no dot and no slash, so its path
-- is in the directory.
use wtfoc.Prelude.{
  ℕ, String, Bool, true, false, not, ◌&&◌, ◌||◌, Option, none, some, ◌==◌, length, leb, ltb,
  nat_beq, all, if◌then◌else◌, text_has_eq,
}
use wtfoc.Prelude.Dict
use wtfoc.Prelude.Dict.{Dict}
use wtfoc.Prelude.Text.{units}

-- `[a-zA-Z0-9_-]`
abbrev pub is_name_unit : ℕ → Bool
is_name_unit c =
    leb b'a' c && leb c b'z'
    || leb b'A' c && leb c b'Z'
    || leb b'0' c && leb c b'9'
    || nat_beq c b'_'
    || nat_beq c b'-'

pub data NameError : Type 0 where
  bad_units too_long : NameError

-- None is a name that passes.
unfoldable pub validate_collection_name : String → Option NameError
validate_collection_name name =
    let text = units name in
    if name == "" || not (all is_name_unit text)
    then some bad_units
    else (if ltb 128 (length text) then some too_long else none)

pub record StoredHead (H : Type 0) : Type 0 where
  pub head_id : String
  pub manifest : H

pub record Codec (H : Type 0) : Type 0 where
  pub parse : String → Option H
  pub serialize : H → String
  pub sha : String → String

pub data PutError : Type 0 where
  conflict : Option String → Option String → PutError
  invalid_name : NameError → PutError

pub data PutResult (H : Type 0) : Type 0 where
  stored : StoredHead H → PutResult H
  refused : PutError → PutResult H

abbrev pub head_of : {H : Type 0} → Codec H → Option String → Option (StoredHead H)
head_of c none = none
head_of c (some text) = elim (c.parse text) [
  | none ↦ none
  | some manifest ↦ some (record { head_id = c.sha text; manifest = manifest })
]

-- An invalid name has no file.
unfoldable pub get_head :
    {H : Type 0} → Codec H → Dict String String → String → Option (StoredHead H)
unfolding validate_collection_name
get_head c files name = elim (validate_collection_name name) [
  | none ↦ head_of c (Dict.get name files)
  | some e ↦ none
]

abbrev pub head_id_of : {H : Type 0} → Option (StoredHead H) → Option String
head_id_of none = none
head_id_of (some h) = some (h.head_id)

abbrev pub same_id : Option String → Option String → Bool
same_id none none = true
same_id none (some b) = false
same_id (some a) none = false
same_id (some a) (some b) = a == b

-- The write, which throws on an invalid name.
abbrev pub write_head :
    {H : Type 0}
    → Codec H
    → Dict String String
    → String
    → H
    → Option NameError
    → Dict String String × PutResult H
write_head c files name manifest none =
    let text = c.serialize manifest in
    (Dict.set name text files, stored (record { head_id = c.sha text; manifest = manifest }))
write_head c files name manifest (some e) = (files, refused (invalid_name e))

-- The new files, and the answer.
unfoldable pub put_head :
    {H : Type 0}
    → Codec H
    → Dict String String
    → String
    → H
    → Option String
    → Dict String String × PutResult H
unfolding get_head validate_collection_name
put_head c files name manifest prev_head_id =
    let current = head_id_of (get_head c files name) in
    if same_id prev_head_id current
    then write_head c files name manifest (validate_collection_name name)
    else (files, refused (conflict prev_head_id current))
