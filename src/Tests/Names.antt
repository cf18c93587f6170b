-- ===== src/Tests/Names.antt =====
-- The hashes of names, on names of src/html/local_name.rs and its tests.
use lol_html.Base.Range.{Range, slice}
use lol_html.Html.LocalName.Equality.{new_name-name_eq}
use lol_html.Html.LocalName.{LocalName, new_name, hash_from, hash_is, name_eq, eq_ignore_ascii_case}
use lol_html.Html.Tag.Names.{codes, hash_is-tag_name, tag_name}
use lol_html.Html.Tag.{Tag}
use lol_html.Prelude.{ℕ, List, ◌≡◌, refl, some, none}

div_hash : hash_from (codes "div") ≡ some 9691
unfolding hash_from
div_hash = refl

no_hash : hash_from (codes "div@&") ≡ none
unfolding hash_from
no_hash = refl

too_long : hash_from (codes "aaaaaaaaaaaaaa") ≡ none
unfolding hash_from
too_long = refl

abbrev page : List ℕ
page = codes "<DIV></div>"

abbrev open_name : Range
open_name = record { start = 1; end = 4 }

abbrev close_name : Range
close_name = record { start = 7; end = 10 }

new_name-name_eq_example :
    (n : LocalName) × (m : LocalName) × (new_name page open_name (hash_from (codes "DIV")) ≡ some n)
    × (new_name page close_name (hash_from (codes "div")) ≡ some m)
    × (name_eq n m ≡ eq_ignore_ascii_case (codes "DIV") (codes "div"))
unfolding slice
new_name-name_eq_example =
    new_name-name_eq page page open_name close_name (codes "DIV") (codes "div") refl refl refl refl

hash_is-tag_name_example :
    hash_is (hash_from (codes "Script")) Tag.script
    ≡ eq_ignore_ascii_case (codes "Script") (tag_name Tag.script)
hash_is-tag_name_example = hash_is-tag_name (codes "Script") Tag.script refl
