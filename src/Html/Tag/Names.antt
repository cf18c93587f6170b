-- ===== src/Html/Tag/Names.antt =====
-- The names of the tags (`TAG_STR_PAIRS` of src/html/tag.rs), and that comparing a hash with a
-- tag's number is comparing the name with the tag's.
use Prim.Native.Char.{code}
use Prim.Native.String.{String}
use lol_html.Html.LocalName.Equality.{hash_from-injective, hash_from-lower}
use lol_html.Html.LocalName.Injective.{StartsWithLetter}
use lol_html.Html.LocalName.{LocalNameHash, hash_from, hash_is, eq_ignore_ascii_case}
use lol_html.Html.Tag.{Tag, tag_value}
use lol_html.Prelude.{ℕ, ◌≡◌, refl, ◌∙◌, Bool, true, List, [], ◌∷◌, none, some, arith}

abbrev pub codes : String → List ℕ
codes String.[] = []
codes (String.◌∷◌ c s) = code c ∷ codes s

pub tag_name : Tag → List ℕ
tag_name Tag.a = codes "A"
tag_name Tag.area = codes "Area"
tag_name Tag.b = codes "B"
tag_name Tag.base = codes "Base"
tag_name Tag.basefont = codes "Basefont"
tag_name Tag.bgsound = codes "Bgsound"
tag_name Tag.big = codes "Big"
tag_name Tag.blockquote = codes "Blockquote"
tag_name Tag.body = codes "Body"
tag_name Tag.br = codes "Br"
tag_name Tag.center = codes "Center"
tag_name Tag.code = codes "Code"
tag_name Tag.col = codes "Col"
tag_name Tag.dd = codes "Dd"
tag_name Tag.desc = codes "Desc"
tag_name Tag.div = codes "Div"
tag_name Tag.dl = codes "Dl"
tag_name Tag.dt = codes "Dt"
tag_name Tag.em = codes "Em"
tag_name Tag.embed = codes "Embed"
tag_name Tag.font = codes "Font"
tag_name Tag.foreign_object = codes "ForeignObject"
tag_name Tag.frameset = codes "Frameset"
tag_name Tag.h1 = codes "H1"
tag_name Tag.h2 = codes "H2"
tag_name Tag.h3 = codes "H3"
tag_name Tag.h4 = codes "H4"
tag_name Tag.h5 = codes "H5"
tag_name Tag.h6 = codes "H6"
tag_name Tag.head = codes "Head"
tag_name Tag.hr = codes "Hr"
tag_name Tag.i = codes "I"
tag_name Tag.iframe = codes "Iframe"
tag_name Tag.img = codes "Img"
tag_name Tag.input = codes "Input"
tag_name Tag.keygen = codes "Keygen"
tag_name Tag.li = codes "Li"
tag_name Tag.link = codes "Link"
tag_name Tag.listing = codes "Listing"
tag_name Tag.math = codes "Math"
tag_name Tag.menu = codes "Menu"
tag_name Tag.meta = codes "Meta"
tag_name Tag.mi = codes "Mi"
tag_name Tag.mn = codes "Mn"
tag_name Tag.mo = codes "Mo"
tag_name Tag.ms = codes "Ms"
tag_name Tag.mtext = codes "Mtext"
tag_name Tag.nobr = codes "Nobr"
tag_name Tag.noembed = codes "Noembed"
tag_name Tag.noframes = codes "Noframes"
tag_name Tag.noscript = codes "Noscript"
tag_name Tag.ol = codes "Ol"
tag_name Tag.p = codes "P"
tag_name Tag.param = codes "Param"
tag_name Tag.plaintext = codes "Plaintext"
tag_name Tag.pre = codes "Pre"
tag_name Tag.ruby = codes "Ruby"
tag_name Tag.s = codes "S"
tag_name Tag.script = codes "Script"
tag_name Tag.select = codes "Select"
tag_name Tag.small = codes "Small"
tag_name Tag.source = codes "Source"
tag_name Tag.span = codes "Span"
tag_name Tag.strike = codes "Strike"
tag_name Tag.strong = codes "Strong"
tag_name Tag.style = codes "Style"
tag_name Tag.sub = codes "Sub"
tag_name Tag.sup = codes "Sup"
tag_name Tag.svg = codes "Svg"
tag_name Tag.table = codes "Table"
tag_name Tag.template = codes "Template"
tag_name Tag.textarea = codes "Textarea"
tag_name Tag.title = codes "Title"
tag_name Tag.track = codes "Track"
tag_name Tag.tt = codes "Tt"
tag_name Tag.u = codes "U"
tag_name Tag.ul = codes "Ul"
tag_name Tag.var = codes "Var"
tag_name Tag.xmp = codes "Xmp"
tag_name Tag.wbr = codes "Wbr"

tag_name-letter : (t : Tag) → StartsWithLetter (tag_name t)
unfolding tag_name
tag_name-letter Tag.a = refl
tag_name-letter Tag.area = refl
tag_name-letter Tag.b = refl
tag_name-letter Tag.base = refl
tag_name-letter Tag.basefont = refl
tag_name-letter Tag.bgsound = refl
tag_name-letter Tag.big = refl
tag_name-letter Tag.blockquote = refl
tag_name-letter Tag.body = refl
tag_name-letter Tag.br = refl
tag_name-letter Tag.center = refl
tag_name-letter Tag.code = refl
tag_name-letter Tag.col = refl
tag_name-letter Tag.dd = refl
tag_name-letter Tag.desc = refl
tag_name-letter Tag.div = refl
tag_name-letter Tag.dl = refl
tag_name-letter Tag.dt = refl
tag_name-letter Tag.em = refl
tag_name-letter Tag.embed = refl
tag_name-letter Tag.font = refl
tag_name-letter Tag.foreign_object = refl
tag_name-letter Tag.frameset = refl
tag_name-letter Tag.h1 = refl
tag_name-letter Tag.h2 = refl
tag_name-letter Tag.h3 = refl
tag_name-letter Tag.h4 = refl
tag_name-letter Tag.h5 = refl
tag_name-letter Tag.h6 = refl
tag_name-letter Tag.head = refl
tag_name-letter Tag.hr = refl
tag_name-letter Tag.i = refl
tag_name-letter Tag.iframe = refl
tag_name-letter Tag.img = refl
tag_name-letter Tag.input = refl
tag_name-letter Tag.keygen = refl
tag_name-letter Tag.li = refl
tag_name-letter Tag.link = refl
tag_name-letter Tag.listing = refl
tag_name-letter Tag.math = refl
tag_name-letter Tag.menu = refl
tag_name-letter Tag.meta = refl
tag_name-letter Tag.mi = refl
tag_name-letter Tag.mn = refl
tag_name-letter Tag.mo = refl
tag_name-letter Tag.ms = refl
tag_name-letter Tag.mtext = refl
tag_name-letter Tag.nobr = refl
tag_name-letter Tag.noembed = refl
tag_name-letter Tag.noframes = refl
tag_name-letter Tag.noscript = refl
tag_name-letter Tag.ol = refl
tag_name-letter Tag.p = refl
tag_name-letter Tag.param = refl
tag_name-letter Tag.plaintext = refl
tag_name-letter Tag.pre = refl
tag_name-letter Tag.ruby = refl
tag_name-letter Tag.s = refl
tag_name-letter Tag.script = refl
tag_name-letter Tag.select = refl
tag_name-letter Tag.small = refl
tag_name-letter Tag.source = refl
tag_name-letter Tag.span = refl
tag_name-letter Tag.strike = refl
tag_name-letter Tag.strong = refl
tag_name-letter Tag.style = refl
tag_name-letter Tag.sub = refl
tag_name-letter Tag.sup = refl
tag_name-letter Tag.svg = refl
tag_name-letter Tag.table = refl
tag_name-letter Tag.template = refl
tag_name-letter Tag.textarea = refl
tag_name-letter Tag.title = refl
tag_name-letter Tag.track = refl
tag_name-letter Tag.tt = refl
tag_name-letter Tag.u = refl
tag_name-letter Tag.ul = refl
tag_name-letter Tag.var = refl
tag_name-letter Tag.xmp = refl
tag_name-letter Tag.wbr = refl

-- The number of each tag is the hash of its name.
hash_from-tag_name : (t : Tag) → hash_from (tag_name t) ≡ some (tag_value t)
unfolding tag_name hash_from
hash_from-tag_name Tag.a = refl
hash_from-tag_name Tag.area = refl
hash_from-tag_name Tag.b = refl
hash_from-tag_name Tag.base = refl
hash_from-tag_name Tag.basefont = refl
hash_from-tag_name Tag.bgsound = refl
hash_from-tag_name Tag.big = refl
hash_from-tag_name Tag.blockquote = refl
hash_from-tag_name Tag.body = refl
hash_from-tag_name Tag.br = refl
hash_from-tag_name Tag.center = refl
hash_from-tag_name Tag.code = refl
hash_from-tag_name Tag.col = refl
hash_from-tag_name Tag.dd = refl
hash_from-tag_name Tag.desc = refl
hash_from-tag_name Tag.div = refl
hash_from-tag_name Tag.dl = refl
hash_from-tag_name Tag.dt = refl
hash_from-tag_name Tag.em = refl
hash_from-tag_name Tag.embed = refl
hash_from-tag_name Tag.font = refl
hash_from-tag_name Tag.foreign_object = refl
hash_from-tag_name Tag.frameset = refl
hash_from-tag_name Tag.h1 = refl
hash_from-tag_name Tag.h2 = refl
hash_from-tag_name Tag.h3 = refl
hash_from-tag_name Tag.h4 = refl
hash_from-tag_name Tag.h5 = refl
hash_from-tag_name Tag.h6 = refl
hash_from-tag_name Tag.head = refl
hash_from-tag_name Tag.hr = refl
hash_from-tag_name Tag.i = refl
hash_from-tag_name Tag.iframe = refl
hash_from-tag_name Tag.img = refl
hash_from-tag_name Tag.input = refl
hash_from-tag_name Tag.keygen = refl
hash_from-tag_name Tag.li = refl
hash_from-tag_name Tag.link = refl
hash_from-tag_name Tag.listing = refl
hash_from-tag_name Tag.math = refl
hash_from-tag_name Tag.menu = refl
hash_from-tag_name Tag.meta = refl
hash_from-tag_name Tag.mi = refl
hash_from-tag_name Tag.mn = refl
hash_from-tag_name Tag.mo = refl
hash_from-tag_name Tag.ms = refl
hash_from-tag_name Tag.mtext = refl
hash_from-tag_name Tag.nobr = refl
hash_from-tag_name Tag.noembed = refl
hash_from-tag_name Tag.noframes = refl
hash_from-tag_name Tag.noscript = refl
hash_from-tag_name Tag.ol = refl
hash_from-tag_name Tag.p = refl
hash_from-tag_name Tag.param = refl
hash_from-tag_name Tag.plaintext = refl
hash_from-tag_name Tag.pre = refl
hash_from-tag_name Tag.ruby = refl
hash_from-tag_name Tag.s = refl
hash_from-tag_name Tag.script = refl
hash_from-tag_name Tag.select = refl
hash_from-tag_name Tag.small = refl
hash_from-tag_name Tag.source = refl
hash_from-tag_name Tag.span = refl
hash_from-tag_name Tag.strike = refl
hash_from-tag_name Tag.strong = refl
hash_from-tag_name Tag.style = refl
hash_from-tag_name Tag.sub = refl
hash_from-tag_name Tag.sup = refl
hash_from-tag_name Tag.svg = refl
hash_from-tag_name Tag.table = refl
hash_from-tag_name Tag.template = refl
hash_from-tag_name Tag.textarea = refl
hash_from-tag_name Tag.title = refl
hash_from-tag_name Tag.track = refl
hash_from-tag_name Tag.tt = refl
hash_from-tag_name Tag.u = refl
hash_from-tag_name Tag.ul = refl
hash_from-tag_name Tag.var = refl
hash_from-tag_name Tag.xmp = refl
hash_from-tag_name Tag.wbr = refl

hash_is-eq :
    (h : LocalNameHash) (t : Tag) (b : Bool)
    → (h ≡ some (tag_value t) → b ≡ true)
    → (b ≡ true → h ≡ some (tag_value t))
    → hash_is h t ≡ b
unfolding hash_is
hash_is-eq none t b f g = ground arith
hash_is-eq (some h) t b f g = ground arith

-- For a name that begins with a letter, the test of its hash against a tag succeeds exactly when
-- the name is the tag's, up to the case of its letters.
pub hash_is-tag_name :
    (s : List ℕ) (t : Tag)
    → StartsWithLetter s
    → hash_is (hash_from s) t ≡ eq_ignore_ascii_case s (tag_name t)
hash_is-tag_name s t l =
    hash_is-eq (hash_from s) t _
      (λ e. hash_from-injective s (tag_name t) l (tag_name-letter t) e (hash_from-tag_name t))
      (λ e. hash_from-lower s (tag_name t) e ∙ hash_from-tag_name t)
