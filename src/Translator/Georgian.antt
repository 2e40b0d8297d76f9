-- ===== src/Translator/Georgian.antt =====
-- internal/translator/georgian_latin.go: the heuristic for Georgian written in Latin letters.
-- A text is the list of its code points. Scores are counted in halves, since every weight of the
-- source is a multiple of 0.5; the comparisons with 0.9 and 0.1 are cross-multiplied, which agrees with
-- the float64 ones for texts of fewer than 2 ^ 49 letters. What unicode.IsLetter says of code points
-- beyond ASCII, and the replacement of links by a space (urlRe), are parameters.
use abb_app.Base.{
  ℕ, ◌+◌, ◌*◌, max, Bool, false, ◌&&◌, ◌||◌, not, List, [], ◌∷◌, ◌++◌, length, filter, ltb, leb,
  ◌==◌, if◌then◌else◌,
}
use mathlib.Core.List.{reverse}
use abb_app.Translator.Dictionary.{
  georgian_latin_words, georgian_suffixes, georgian_postpositions, georgian_bigrams,
  english_function_words,
}
use abb_app.Base.Text.{Text, codes, text_eq, has_prefix, contains, is_digit, to_lower, to_upper}

-- Membership in one of the word maps.
unfoldable pub is_word : Text → List Text → Bool
is_word w [] = false
is_word w (v ∷ vs) = text_eq v w || is_word w vs

-- strings.HasSuffix
unfoldable pub has_suffix : Text → Text → Bool
has_suffix s t = has_prefix (reverse s) (reverse t)

abbrev is_ascii_letter : ℕ → Bool
is_ascii_letter c = leb b'A' c && leb c b'Z' || leb b'a' c && leb c b'z'

-- The current word, if it is not empty, and the words behind it.
abbrev end_word : Text → List Text → List Text
end_word [] ws = ws
end_word (c ∷ w) ws = (c ∷ w) ∷ ws

-- wordRe.FindAllString: `word` holds the letters that stand directly before the text.
unfoldable pub find_words : Text → Text → List Text
find_words word [] = end_word word []
find_words word (c ∷ s) =
    let more = find_words (word ++ c ∷ []) s in
    let done = end_word word (find_words [] s) in if is_ascii_letter c then more else done

-- IsGeorgianNumber
unfoldable pub is_georgian_number : Text → Bool
is_georgian_number number = has_prefix (filter is_digit number) (codes "995")

-- One of the suffixes, on a word that is longer by more than `extra`.
unfoldable pub has_any_suffix : ℕ → Text → List Text → Bool
unfolding has_suffix
has_any_suffix extra w [] = false
has_any_suffix extra w (t ∷ ts) =
    ltb (length t + extra) (length w) && has_suffix w t || has_any_suffix extra w ts

unfoldable pub contains_any : Text → List Text → Bool
contains_any w [] = false
contains_any w (b ∷ bs) = contains w b || contains_any w bs

abbrev is_vowel : ℕ → Bool
is_vowel c = c == b'a' || c == b'e' || c == b'i' || c == b'o' || c == b'u'

-- maxConsonantRun, with the longest run so far and the current one.
unfoldable pub consonant_run : ℕ → ℕ → Text → ℕ
consonant_run top cur [] = top
consonant_run top cur (c ∷ w) =
    let cur' = if is_vowel c then 0 else cur + 1 in consonant_run (max top cur') cur' w

unfoldable pub max_consonant_run : Text → ℕ
unfolding consonant_run
max_consonant_run w = consonant_run 0 0 w

-- The weak signals of a word, in halves.
unfoldable pub weak_score : Text → ℕ
unfolding has_any_suffix contains_any max_consonant_run
weak_score lw =
    (if has_any_suffix 2 lw georgian_suffixes then 2 else 0)
    + (if has_any_suffix 3 lw georgian_postpositions then 1 else 0)
    + (if contains_any lw georgian_bigrams then 1 else 0)
    + (if leb 3 (max_consonant_run lw) then 1 else 0)

-- The variables of the scoring loop; the score is in halves.
pub record Score : Type 0 where
  pub score : ℕ
  pub dict_hits : ℕ
  pub weighed : ℕ

-- One round of the scoring loop.
unfoldable pub score_word : Text → Score → Score
score_word w s =
    if is_word (to_lower w) georgian_latin_words
    then record s { score = s.score + 4; dict_hits = s.dict_hits + 1 }
    else if ltb 1 (length w) && text_eq (to_upper w) w
    then s
    else record s { score = s.score + weak_score (to_lower w); weighed = s.weighed + 1 }

unfoldable pub score_words : List Text → Score → Score
score_words [] s = s
score_words (w ∷ ws) s = score_words ws (score_word w s)

-- The number of English function words.
unfoldable pub count_english : List Text → ℕ
unfolding is_word
count_english [] = 0
count_english (w ∷ ws) =
    (if is_word (to_lower w) english_function_words then 1 else 0) + count_english ws

-- The guard against English text.
unfoldable pub is_english : List Text → Bool
is_english words = leb 2 (count_english words) && leb (length words) (10 * count_english words)

-- georgianRecipientBonus, in halves.
unfoldable pub bonus : Text → ℕ
unfolding is_georgian_number
bonus recipient = if is_georgian_number recipient then 4 else 0

-- The last two tests on the score.
unfoldable pub passes : Score → Bool
passes s = leb 6 s.score && (ltb 0 s.dict_hits || leb s.weighed s.score)

module _ (is_letter : ℕ → Bool) where
  -- unicode.IsLetter: the parameter is asked beyond ASCII only.
  unfoldable pub is_any_letter : ℕ → Bool
  is_any_letter c = if ltb c 128 then is_ascii_letter c else is_letter c

  -- The text is (almost) pure Latin script.
  unfoldable pub is_latin : Text → Bool
  unfolding is_any_letter
  is_latin text =
      let letters = filter is_any_letter text in
      ltb 0 (length letters)
      && leb (9 * length letters) (10 * length (filter (λ c. ltb c 128) letters))

  -- LooksLikeGeorgianLatinFor, on the text without its links.
  unfoldable pub looks_georgian : Text → Text → Bool
  looks_georgian text recipient =
      let words = find_words [] text in
      leb 1 (length words)
      && is_latin text
      && not (is_english words)
      && passes (score_words words (record { score = bonus recipient; dict_hits = 0; weighed = 0 }))

  -- LooksLikeGeorgianLatinFor
  unfoldable pub looks_like_georgian_latin_for : (Text → Text) → Text → Text → Bool
  unfolding looks_georgian
  looks_like_georgian_latin_for strip_urls text recipient =
      looks_georgian (strip_urls text) recipient
