-- ===== src/Names.antt =====
-- Object names and label values (crates/common/src/lib.rs): hashes are shortened, and every name is
-- brought into the form of a DNS label of bounded length.
pub mod Shape
pub mod Labels
pub mod Bounds
use kube_frontend_forge_cont.Common.{
  ℕ, ◌+◌, ◌-◌, Char, code, String, len, chars, collect, byte_len, ◌&◌, Bool, true, false, ◌&&◌,
  ◌||◌, Option, none, some, List, [], ◌∷◌, ◌++◌, map, take, is_empty, ltb, leb, eqb, if◌then◌else◌,
}
use kube_frontend_forge_cont.Decimal.{ascii, decimal}

abbrev pub is_lower : Char → Bool
is_lower c = leb b'a' (code c) && leb (code c) b'z'

abbrev pub is_digit : Char → Bool
is_digit c = leb b'0' (code c) && leb (code c) b'9'

abbrev pub is_upper : Char → Bool
is_upper c = leb b'A' (code c) && leb (code c) b'Z'

abbrev pub is_dash : Char → Bool
is_dash c = eqb (code c) b'-'

-- The `match` of `bounded_name` on one character.
pub sanitize_char : Char → Char
sanitize_char c =
    if is_lower c || is_digit c || is_dash c
    then c
    else if is_upper c
    then ascii (code c + 32)
    else ascii b'-'

-- The loop that leaves one dash of a run of them; the flag is `last_dash`.
pub compact_from : Bool → List Char → List Char
compact_from last_dash [] = []
compact_from last_dash (c ∷ cs) =
    let dashed = compact_from true cs in
    let plain = c ∷ compact_from false cs in
    if is_dash c then (if last_dash then dashed else c ∷ dashed) else plain

pub trim_start : List Char → List Char
trim_start [] = []
trim_start (c ∷ cs) = if is_dash c then trim_start cs else c ∷ cs

-- A dash in front of what is left, unless nothing is left.
pub cons_unless_dash : Char → List Char → List Char
cons_unless_dash c [] = if is_dash c then [] else c ∷ []
cons_unless_dash c (d ∷ ds) = c ∷ d ∷ ds

pub trim_end : List Char → List Char
trim_end [] = []
trim_end (c ∷ cs) = cons_unless_dash c (trim_end cs)

abbrev or_fi : List Char → List Char
or_fi [] = chars "fi"
or_fi (c ∷ cs) = c ∷ cs

abbrev or_taken : List Char → List Char → List Char
or_taken [] taken = taken
or_taken (c ∷ cs) taken = c ∷ cs

-- The characters before truncation.
pub compacted : List Char → List Char
compacted raw = or_fi (trim_end (trim_start (compact_from false (map sanitize_char raw))))

-- `compact[..max_len]` cuts at a byte, which is a character: all are ASCII by now.
pub bounded : List Char → ℕ → List Char
bounded raw max_len =
    let compact = compacted raw in
    if leb (byte_len compact) max_len
    then compact
    else or_taken (trim_end (take max_len compact)) (take max_len compact)

unfoldable pub bounded_name : String → ℕ → String
bounded_name raw max_len = collect (bounded (chars raw) max_len)

pub bounded_name_preserving_suffix : String → String → ℕ → String
bounded_name_preserving_suffix raw_prefix suffix max_len =
    if leb max_len (len suffix)
    then bounded_name suffix max_len
    else bounded_name raw_prefix (max_len - len suffix) & suffix

-- `hash.strip_prefix("sha256:").unwrap_or(hash)`, on characters.
pub strip_prefix_chars : List Char → List Char → Option (List Char)
strip_prefix_chars [] cs = some cs
strip_prefix_chars (p ∷ ps) [] = none
strip_prefix_chars (p ∷ ps) (c ∷ cs) =
    if eqb (code p) (code c) then strip_prefix_chars ps cs else none

pub trimmed : String → List Char
trimmed hash = elim (strip_prefix_chars (chars "sha256:") (chars hash)) [
  | none ↦ chars hash
  | some rest ↦ rest
]

pub hash_short : String → String
hash_short hash = collect (take 8 (trimmed hash))

pub hash_label_value : String → String
hash_label_value hash = if is_empty (trimmed hash) then "0" else collect (take 63 (trimmed hash))

pub hash_name_suffix : String → String
hash_name_suffix hash = if is_empty (trimmed hash) then "0" else collect (take 12 (trimmed hash))

pub default_bundle_name : String → String
default_bundle_name fi_name = bounded_name ("fi-" & fi_name) 63

pub job_name : String → String → String
job_name fi_name manifest_hash =
    bounded_name ("fi-" & fi_name & "-build-" & hash_short manifest_hash) 63

-- What follows the prefix in a package Job's name.
unfoldable pub package_suffix : String → ℕ → String
package_suffix artifact_key attempt =
    "-" & hash_name_suffix artifact_key & "-a" & collect (decimal attempt)

pub package_job_name : String → String → ℕ → String
package_job_name fe_name artifact_key attempt =
    bounded_name_preserving_suffix ("fe-" & fe_name & "-package")
      (package_suffix artifact_key attempt) 63

pub artifact_configmap_name : String → String → String
artifact_configmap_name package_name artifact_key =
    bounded_name_preserving_suffix ("fe-" & package_name) ("-" & hash_name_suffix artifact_key) 63

pub secret_name : String → String → String → String
secret_name fi_name manifest_hash nonce =
    bounded_name ("fi-" & fi_name & "-mf-" & hash_short manifest_hash & "-" & nonce) 63

-- `sha256_hex` is the digest of the sha2 and hex crates over the text's bytes.
module _ (sha256_hex : String → String) where
  pub publish_job_name : String → String → String
  publish_job_name fe_name request_id =
      bounded_name ("fe-" & fe_name & "-publish-" & hash_short ("sha256:" & sha256_hex request_id))
        63

  pub unpublish_job_name : String → String → String
  unpublish_job_name fe_name request_id =
      bounded_name
        ("fe-" & fe_name & "-unpublish-" & hash_short ("sha256:" & sha256_hex request_id)) 63
