-- ===== src/Migration/Naming.antt =====
-- The names of migrated extensions (crates/frontend-forge-controller/src/bin/fi_to_fe_migrator/naming.rs).
use kube_frontend_forge_cont.Common.{
  ℕ, suc, ◌-◌, ◌+◌, ◌≤◌, ◌<◌, Char, String, len, chars, collect, chars-collect, chars-append,
  len-collect, len-&, ◌&◌, ◌≡◌, refl, ◌∙◌, ◌⊎◌, inl, inr, List, [], ◌∷◌, take, length,
  length-take-le, All, All-take, All-append, arith, leb, Bool-cases, if◌then◌else◌,
}
use kube_frontend_forge_cont.Names.{sanitize_char, trim_start, trim_end}
use kube_frontend_forge_cont.Names.Shape.{
  IsNameChar, sanitize_char-IsNameChar, trim_start-All, trim_end-All, length-trim_start-le,
  length-trim_end-le, byte_len-eq-length,
}
use kube_frontend_forge_cont.Outside.{Outside}
use kube_frontend_forge_cont.Identity.{text_sha256}

-- The loop, with the length of what is there: each character that is pushed is one byte, and is what
-- `bounded_name` makes of it too.
unfoldable pub prefix_from : ℕ → ℕ → List Char → List Char
prefix_from there max_len [] = []
prefix_from there max_len (c ∷ cs) =
    let rest = prefix_from (suc there) max_len cs in
    if leb max_len there then [] else sanitize_char c ∷ rest

abbrev pub or_x : List Char → List Char
or_x [] = chars "x"
or_x (c ∷ cs) = c ∷ cs

abbrev pub label_prefix : List Char → ℕ → List Char
label_prefix cs max_len = or_x (trim_end (trim_start (prefix_from 0 max_len cs)))

unfoldable pub dns_label_prefix : String → ℕ → String
dns_label_prefix value max_len = collect (label_prefix (chars value) max_len)

module _ (out : Outside) where
  abbrev pub name_hash : String → String
  name_hash fi_name = collect (take 12 (chars (text_sha256 out fi_name)))

  unfoldable pub migrated_fe_name : String → String
  migrated_fe_name fi_name =
      if leb (len ("fi-" & fi_name)) 63
      then "fi-" & fi_name
      else "fi-"
        & dns_label_prefix fi_name (63 - 3 - 1 - len (name_hash fi_name))
        & "-"
        & name_hash fi_name

prefix_from-All :
    (there max_len : ℕ) (cs : List Char) → All IsNameChar (prefix_from there max_len cs)
unfolding prefix_from
prefix_from-All there max_len [] = tt
prefix_from-All there max_len (c ∷ cs) = elim (Bool-cases (leb max_len there)) [
  | inl e ↦ rw e tt
  | inr e ↦ rw e (sanitize_char-IsNameChar c, prefix_from-All (suc there) max_len cs)
]

length-prefix_from :
    (there max_len : ℕ) (cs : List Char) → length (prefix_from there max_len cs) ≤ max_len - there
unfolding prefix_from
length-prefix_from there max_len [] = omega arith
length-prefix_from there max_len (c ∷ cs) =
    ground (arith, length-prefix_from (suc there) max_len cs)

abbrev cut : List Char → ℕ → List Char
cut cs max_len = trim_end (trim_start (prefix_from 0 max_len cs))

cut-All : (cs : List Char) (max_len : ℕ) → All IsNameChar (cut cs max_len)
cut-All cs max_len =
    trim_end-All IsNameChar _ (trim_start-All IsNameChar _ (prefix_from-All 0 max_len cs))

length-cut-le : (cs : List Char) (max_len : ℕ) → length (cut cs max_len) ≤ max_len
length-cut-le cs max_len =
    let kept = prefix_from 0 max_len cs in
    omega (
      arith,
      length-trim_end-le (trim_start kept),
      length-trim_start-le kept,
      length-prefix_from 0 max_len cs,
    )

or_x-All : (cs : List Char) → All IsNameChar cs → All IsNameChar (or_x cs)
or_x-All [] h = ground arith
or_x-All (c ∷ cs) h = h

length-or_x : (cs : List Char) (n : ℕ) → length cs ≤ n → 0 < n → length (or_x cs) ≤ n
length-or_x [] n h p = omega arith
length-or_x (c ∷ cs) n h p = h

-- A name that is put together of a prefix and a hash.
module _ (slice hash : List Char) (plain : All IsNameChar slice) (hex : All IsNameChar hash) where
  abbrev joined : String
  joined = "fi-" & collect slice & "-" & collect hash

  len-joined : len joined ≡ 4 + length slice + length hash
  len-joined = omega (
    arith,
    len-& "fi-" (collect slice & "-" & collect hash),
    len-& (collect slice) ("-" & collect hash),
    len-& "-" (collect hash),
    len-collect slice,
    len-collect hash,
    byte_len-eq-length slice plain,
    byte_len-eq-length hash hex,
  )

  joined-All : All IsNameChar (chars joined)
  joined-All =
      rw
        (
          chars-append "fi-" (collect slice & "-" & collect hash),
          chars-append (collect slice) ("-" & collect hash),
          chars-append "-" (collect hash),
          chars-collect slice,
          chars-collect hash,
        )
        (All-append IsNameChar (chars "fi-") _ (ground arith) (
          All-append IsNameChar slice _ plain
            (All-append IsNameChar (chars "-") hash (ground arith) hex)))

module _ (out : Outside) (fi_name : String)
    (hex : All IsNameChar (chars (text_sha256 out fi_name))) where
  abbrev digest : List Char
  digest = take 12 (chars (text_sha256 out fi_name))

  digest-All : All IsNameChar digest
  digest-All = All-take IsNameChar 12 _ hex

  abbrev room : ℕ
  room = 63 - 3 - 1 - len (name_hash out fi_name)

  len-name_hash : len (name_hash out fi_name) ≡ length digest
  len-name_hash = len-collect digest ∙ byte_len-eq-length digest digest-All

  -- Where the digest's text has the letters and digits of a name only: a migrated extension has the
  -- integration's name behind "fi-" if that fits 63 bytes. If it does not, the name has at most 63
  -- bytes too, only lower case letters, digits and dashes, and ends in a dash and the first 12
  -- characters of the digest of the integration's name.
  pub migrated_fe_name_bounds :
      (len (migrated_fe_name out fi_name) ≤ 63)
      × (((len ("fi-" & fi_name) ≤ 63) × (migrated_fe_name out fi_name ≡ "fi-" & fi_name))
          ⊎ ((63 < len ("fi-" & fi_name))
              × All IsNameChar (chars (migrated_fe_name out fi_name))
              × ((slice : String) × (migrated_fe_name out fi_name
                    ≡ "fi-" & slice & "-" & collect (take 12 (chars (text_sha256 out fi_name)))))))
  unfolding migrated_fe_name dns_label_prefix
  migrated_fe_name_bounds = elim (Bool-cases (leb (len ("fi-" & fi_name)) 63)) [
    | inl e ↦ rw e (ground arith, inl (ground arith, refl))
    | inr e ↦
        let few = length-take-le 12 (chars (text_sha256 out fi_name)) in
        let slice = label_prefix (chars fi_name) room in
        let plain = or_x-All _ (cut-All (chars fi_name) room) in
        let long : 63 < len ("fi-" & fi_name) = ground arith in
        let short =
          length-or_x (cut (chars fi_name) room) room (length-cut-le (chars fi_name) room)
            (omega (arith, few, len-name_hash)) in
        rw e (
          omega (arith, len-joined slice digest plain digest-All, short, few, len-name_hash),
          inr (long, joined-All slice digest plain digest-All, (collect slice, refl)),
        )
  ]
