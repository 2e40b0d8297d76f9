-- ===== src/Translator/Dictionary.antt =====
-- internal/translator/georgian_latin.go: its tables of words.
use abb_app.Base.{List, [], ◌∷◌}
use abb_app.Base.Text.{Text, codes}

abbrev pub georgian_latin_words : List Text
georgian_latin_words =
    codes "tu"
    ∷ codes "rom"
    ∷ codes "da"
    ∷ codes "ara"
    ∷ codes "aris"
    ∷ codes "unda"
    ∷ codes "iqos"
    ∷ codes "iyos"
    ∷ codes "iqonie"
    ∷ codes "gamarjoba"
    ∷ codes "madloba"
    ∷ codes "gmadlobt"
    ∷ codes "shen"
    ∷ codes "chemi"
    ∷ codes "sheni"
    ∷ codes "chven"
    ∷ codes "tqven"
    ∷ codes "nomeri"
    ∷ codes "nomris"
    ∷ codes "balansi"
    ∷ codes "balansze"
    ∷ codes "abonenti"
    ∷ codes "momsaxureba"
    ∷ codes "gadaixade"
    ∷ codes "gadaxda"
    ∷ codes "gantsxadeba"
    ∷ codes "sheatyobinebt"
    ∷ codes "gaqvt"
    ∷ codes "gakvt"
    ∷ codes "gtxovt"
    ∷ codes "gaqvs"
    ∷ codes "sheidzleba"
    ∷ codes "vadamde"
    ∷ codes "gaigzavna"
    ∷ codes "gaigzavneba"
    ∷ codes "gagrzeldeba"
    ∷ codes "shenarchuneba"
    ∷ codes "gamortve"
    ∷ codes "chartva"
    ∷ codes "xval"
    ∷ codes "gsurs"
    ∷ codes "gindat"
    ∷ codes "rogor"
    ∷ codes "xar"
    ∷ codes "var"
    ∷ codes "kargad"
    ∷ codes "magram"
    ∷ codes "vano"
    ∷ codes "ki"
    ∷ codes "diakh"
    ∷ []

abbrev pub georgian_suffixes : List Text
georgian_suffixes =
    codes "deba"
    ∷ codes "deboda"
    ∷ codes "uleba"
    ∷ codes "ianoba"
    ∷ codes "oba"
    ∷ codes "uri"
    ∷ codes "uli"
    ∷ codes "eba"
    ∷ []

abbrev pub georgian_postpositions : List Text
georgian_postpositions = codes "tvis" ∷ codes "shi" ∷ codes "tan" ∷ codes "ze" ∷ []

abbrev pub georgian_bigrams : List Text
georgian_bigrams =
    codes "kh"
    ∷ codes "gh"
    ∷ codes "ts"
    ∷ codes "dz"
    ∷ codes "pkh"
    ∷ codes "tkh"
    ∷ codes "chkh"
    ∷ codes "gv"
    ∷ codes "qv"
    ∷ []

abbrev pub english_function_words : List Text
english_function_words =
    codes "the"
    ∷ codes "and"
    ∷ codes "for"
    ∷ codes "to"
    ∷ codes "of"
    ∷ codes "your"
    ∷ codes "you"
    ∷ codes "are"
    ∷ codes "with"
    ∷ codes "this"
    ∷ codes "that"
    ∷ codes "be"
    ∷ codes "not"
    ∷ codes "will"
    ∷ codes "has"
    ∷ codes "have"
    ∷ codes "from"
    ∷ codes "by"
    ∷ codes "or"
    ∷ codes "on"
    ∷ codes "in"
    ∷ codes "at"
    ∷ codes "it"
    ∷ codes "an"
    ∷ codes "please"
    ∷ codes "dear"
    ∷ codes "our"
    ∷ codes "we"
    ∷ codes "can"
    ∷ []
