-- ===== src/Html/Tag.antt =====
-- src/html/tag.rs: the known tags, and the number that stands for each in a name's hash.
-- `tag_is_one_of!` is `is_one_of`; the comparison of a hash with a tag is in Html/LocalName.antt.
pub mod Names
use lol_html.Prelude.{ℕ, List, [], ◌∷◌}

pub data Tag : Type 0 where
  a area b base basefont bgsound big blockquote body br : Tag
  center code col dd desc div dl dt em embed : Tag
  font foreign_object frameset h1 h2 h3 h4 h5 h6 head : Tag
  hr i iframe img input keygen li link listing math : Tag
  menu meta mi mn mo ms mtext nobr noembed noframes : Tag
  noscript ol p param plaintext pre ruby s script select : Tag
  small source span strike strong style sub sup svg table : Tag
  template textarea title track tt u ul var xmp wbr : Tag

-- `#[repr(u64)]`: the discriminant that the macro gives to each tag.
abbrev pub tag_value : Tag → ℕ
tag_value a = 6
tag_value area = 220_486
tag_value b = 7
tag_value base = 236_298
tag_value basefont = 247_776_793_209
tag_value bgsound = 7_944_694_377
tag_value big = 7_628
tag_value blockquote = 265_678_647_808_810
tag_value body = 250_174
tag_value br = 247
tag_value center = 279_569_751
tag_value code = 282_922
tag_value col = 8849
tag_value dd = 297
tag_value desc = 305_928
tag_value div = 9691
tag_value dl = 305
tag_value dt = 313
tag_value em = 338
tag_value embed = 11_083_081
tag_value font = 381_561
tag_value foreign_object = 13_428_975_859_192_539_417
tag_value frameset = 402_873_737_561
tag_value h1 = 416
tag_value h2 = 417
tag_value h3 = 418
tag_value h4 = 419
tag_value h5 = 420
tag_value h6 = 421
tag_value head = 436_425
tag_value hr = 439
tag_value i = 14
tag_value iframe = 482_056_778
tag_value img = 14_924
tag_value input = 15_325_017
tag_value keygen = 548_352_339
tag_value li = 558
tag_value link = 572_016
tag_value listing = 18_749_373_036
tag_value math = 596_781
tag_value menu = 600_698
tag_value meta = 600_870
tag_value mi = 590
tag_value mn = 595
tag_value mo = 596
tag_value ms = 600
tag_value mtext = 19_704_761
tag_value nobr = 643_319
tag_value noembed = 21_083_266_377
tag_value noframes = 674_703_296_856
tag_value noscript = 675_124_329_145
tag_value ol = 657
tag_value p = 21
tag_value param = 22_240_466
tag_value plaintext = 23_680_792_701_881
tag_value pre = 22_250
tag_value ruby = 780_542
tag_value s = 24
tag_value script = 814_463_673
tag_value select = 816_359_705
tag_value small = 25_762_353
tag_value source = 827_153_674
tag_value span = 808_147
tag_value strike = 832_289_290
tag_value strong = 832_295_532
tag_value style = 26_016_298
tag_value sub = 25_415
tag_value sup = 25_429
tag_value svg = 25_452
tag_value table = 26_418_730
tag_value template = 870_357_441_322
tag_value textarea = 870_730_390_854
tag_value title = 26_699_306
tag_value track = 26_974_480
tag_value tt = 825
tag_value u = 26
tag_value ul = 849
tag_value var = 27_863
tag_value xmp = 30_293
tag_value wbr = 28_919

abbrev pub all_tags : List Tag
all_tags =
    a ∷ area ∷ b ∷ base ∷ basefont ∷ bgsound ∷ big ∷ blockquote ∷ body ∷ br ∷ center ∷ code ∷ col
    ∷ dd ∷ desc ∷ div ∷ dl ∷ dt ∷ em ∷ embed ∷ font ∷ foreign_object ∷ frameset ∷ h1 ∷ h2 ∷ h3 ∷ h4
    ∷ h5 ∷ h6 ∷ head ∷ hr ∷ i ∷ iframe ∷ img ∷ input ∷ keygen ∷ li ∷ link ∷ listing ∷ math ∷ menu
    ∷ meta ∷ mi ∷ mn ∷ mo ∷ ms ∷ mtext ∷ nobr ∷ noembed ∷ noframes ∷ noscript ∷ ol ∷ p ∷ param
    ∷ plaintext ∷ pre ∷ ruby ∷ s ∷ script ∷ select ∷ small ∷ source ∷ span ∷ strike ∷ strong ∷ style
    ∷ sub ∷ sup ∷ svg ∷ table ∷ template ∷ textarea ∷ title ∷ track ∷ tt ∷ u ∷ ul ∷ var ∷ xmp ∷ wbr
    ∷ []
