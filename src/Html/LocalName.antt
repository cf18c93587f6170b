-- ===== src/Html/LocalName.antt =====
-- src/html/local_name.rs: `LocalNameHash` packs a tag name into a u64, five bits a character.
pub mod Injective
pub mod Equality
pub mod Same
use Prim.Native.Nat.{bit_or}
use mathlib.Core.Option
use lol_html.Base.Range.{Range, slice}
use lol_html.Html.Tag.{Tag, tag_value}
use lol_html.Prelude.{
  ℕ, ◌+◌, ◌-◌, ◌*◌, ◌/◌, ◌%◌, ◌^◌, Bool, true, false, ◌&&◌, ◌||◌, List, [], ◌∷◌, Option, none, some,
  leb, ◌==◌, if◌then◌else◌,
}

-- `LocalNameHash(Option<u64>)`; `none` where the name has no hash.
abbrev pub LocalNameHash : Type 0
LocalNameHash = Option ℕ

abbrev pub new_hash : LocalNameHash
new_hash = some 0

abbrev pub is_empty : LocalNameHash → Bool
is_empty none = true
is_empty (some _) = false

abbrev pub is_alpha : ℕ → Bool
is_alpha ch = (leb b'a' ch && leb ch b'z') || (leb b'A' ch && leb ch b'Z')

abbrev pub is_digit : ℕ → Bool
is_digit ch = leb b'1' ch && leb ch b'6'

-- `h << 5` on a u64 loses the bits above the 64th.
abbrev pub shift_left_5 : ℕ → ℕ
shift_left_5 h = (h * 32) % 2 ^ 64

unfoldable pub update_some : ℕ → ℕ → LocalNameHash
update_some h ch =
    if (h / 2 ^ (64 - 5)) == 0
    then (if is_alpha ch
        then some (bit_or (shift_left_5 h) (ch % 32 + 5))
        else if is_digit ch
        then some (bit_or (shift_left_5 h) (ch % 16 - 1))
        else none)
    else none

unfoldable pub update : LocalNameHash → ℕ → LocalNameHash
unfolding update_some
update none ch = none
update (some h) ch = update_some h ch

-- The loop of `From<&str>`, from any hash.
unfoldable pub update_all : LocalNameHash → List ℕ → LocalNameHash
update_all hash [] = hash
update_all hash (ch ∷ chs) = update_all (update hash ch) chs

unfoldable pub hash_from : List ℕ → LocalNameHash
unfolding update_all update
hash_from = update_all new_hash

-- `PartialEq<Tag> for LocalNameHash`.
unfoldable pub hash_is : LocalNameHash → Tag → Bool
hash_is none tag = false
hash_is (some h) tag = tag_value tag == h

-- `tag_is_one_of!`.
unfoldable pub is_one_of : LocalNameHash → List Tag → Bool
unfolding hash_is
is_one_of hash [] = false
is_one_of hash (tag ∷ tags) = hash_is hash tag || is_one_of hash tags

-- The derived `PartialEq` of the hash.
abbrev pub hash_eq : LocalNameHash → LocalNameHash → Bool
hash_eq none none = true
hash_eq (some a) (some b) = a == b
hash_eq _ _ = false

pub data LocalName : Type 0 where
  hash : LocalNameHash → LocalName
  bytes : List ℕ → LocalName

-- `LocalName::new`; `none` where the slice is out of range.
unfoldable pub new_name : List ℕ → Range → LocalNameHash → Option LocalName
unfolding slice
new_name input range none = Option.map bytes (slice input range)
new_name input range (some h) = some (hash (some h))

-- `LocalName::from_str_without_replacements`. `encode` stands for the encoding's encoder, and is
-- `none` where a character has no code.
unfoldable pub from_str_without_replacements :
    (List ℕ → Option (List ℕ)) → List ℕ → Option LocalName
unfolding hash_from
from_str_without_replacements encode string = elim (hash_from string) [
  | none ↦ Option.map bytes (encode string)
  | some h ↦ some (hash (some h))
]

-- `u8::to_ascii_lowercase`, as `eq_ignore_ascii_case` uses it.
abbrev pub lower : ℕ → ℕ
lower ch = if leb b'A' ch && leb ch b'Z' then ch + 32 else ch

unfoldable pub eq_ignore_ascii_case : List ℕ → List ℕ → Bool
eq_ignore_ascii_case [] [] = true
eq_ignore_ascii_case (a ∷ s) (b ∷ o) = lower a == lower b && eq_ignore_ascii_case s o
eq_ignore_ascii_case _ _ = false

-- `PartialEq for LocalName`.
unfoldable pub name_eq : LocalName → LocalName → Bool
unfolding eq_ignore_ascii_case
name_eq (hash s) (hash o) = hash_eq s o
name_eq (bytes s) (bytes o) = eq_ignore_ascii_case s o
name_eq _ _ = false

-- `PartialEq<Tag> for LocalName`.
unfoldable pub name_is : LocalName → Tag → Bool
unfolding hash_is
name_is (hash h) tag = hash_is h tag
name_is (bytes _) tag = false
