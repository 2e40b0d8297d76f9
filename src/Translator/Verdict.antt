-- ===== src/Translator/Verdict.antt =====
-- What the recipient's number can change in the verdict.
use abb_app.Base.{
  ℕ, ◌+◌, ◌≡◌, ◌∙◌, ap, sym, refl, subst, Bool, true, false, ◌&&◌, not, List, [], ◌∷◌, length, ltb,
  leb, arith, if◌then◌else◌,
}
use abb_app.Base.Text.{Text, text_eq, to_lower, to_upper, has_prefix}
use abb_app.Translator.Dictionary.{georgian_latin_words}
use abb_app.Translator.Georgian.{
  is_word, weak_score, find_words, Score, score_word, score_words, is_english, is_latin, passes,
  bonus, is_georgian_number, looks_georgian, looks_like_georgian_latin_for,
}

-- A score with more points.
abbrev raised : ℕ → Score → Score
raised n s = record s { score = s.score + n }

round : (known upper : Bool) (x : ℕ) → Score → Score
round known upper x s =
    if known
    then record s { score = s.score + 4; dict_hits = s.dict_hits + 1 }
    else if upper
    then s
    else record s { score = s.score + x; weighed = s.weighed + 1 }

swap : (a b c : ℕ) → a + b + c ≡ a + c + b
swap a b c = omega arith

round-raised :
    (n : ℕ) (known upper : Bool) (x : ℕ) (s : Score)
    → round known upper x (raised n s) ≡ raised n (round known upper x s)
unfolding round
round-raised n true upper x s = rw (swap s.score n 4) refl
round-raised n false true x s = refl
round-raised n false false x s = rw (swap s.score n x) refl

score_word-round :
    (w : Text) (s : Score)
    → score_word w s
      ≡ round
          (is_word (to_lower w) georgian_latin_words)
          (ltb 1 (length w) && text_eq (to_upper w) w)
          (weak_score (to_lower w))
          s
unfolding score_word round
score_word-round w s = refl

score_word-raised :
    (n : ℕ) (w : Text) (s : Score) → score_word w (raised n s) ≡ raised n (score_word w s)
score_word-raised n w s =
    score_word-round w (raised n s)
    ∙ round-raised n _ _ _ s
    ∙ ap (raised n) (sym (score_word-round w s))

score_words-raised :
    (n : ℕ) (ws : List Text) (s : Score) → score_words ws (raised n s) ≡ raised n (score_words ws s)
unfolding score_words
score_words-raised n [] s = refl
score_words-raised n (w ∷ ws) s =
    ap (score_words ws) (score_word-raised n w s) ∙ score_words-raised n ws (score_word w s)

passes-raised : (n : ℕ) (s : Score) → passes s ≡ true → passes (raised n s) ≡ true
unfolding passes
passes-raised n s h = ground arith

abbrev scored : ℕ → Score
scored n = record { score = n; dict_hits = 0; weighed = 0 }

bonus-unknown : bonus [] ≡ 0
unfolding bonus is_georgian_number has_prefix
bonus-unknown = refl

start-raised :
    (n : ℕ) → scored n ≡ raised n (record { score = bonus []; dict_hits = 0; weighed = 0 })
start-raised n =
    ap (λ m. record { score = m; dict_hits = 0; weighed = 0 }) (rw bonus-unknown (omega arith))

passes-bonus :
    (recipient : Text) (ws : List Text)
    → passes (score_words ws (scored (bonus []))) ≡ true
    → passes (score_words ws (scored (bonus recipient))) ≡ true
passes-bonus recipient ws h =
    let start = scored (bonus []) in
    subst (λ t. passes t ≡ true)
      (sym (
        ap (score_words ws) (start-raised (bonus recipient))
        ∙ score_words-raised (bonus recipient) ws start))
      (passes-raised (bonus recipient) (score_words ws start) h)

and-last :
    (a b c d e : Bool)
    → (d ≡ true → e ≡ true)
    → a && b && not c && d ≡ true
    → a && b && not c && e ≡ true
and-last a b c d e h k = ground (arith, h)

-- The recipient's number is a prior and no filter: a text that is taken for Georgian with an unknown
-- recipient is taken for Georgian with every recipient.
pub looks_like_georgian_latin_for-recipient :
    (is_letter : ℕ → Bool) (strip_urls : Text → Text) (text recipient : Text)
    → looks_like_georgian_latin_for is_letter strip_urls text [] ≡ true
    → looks_like_georgian_latin_for is_letter strip_urls text recipient ≡ true
unfolding looks_like_georgian_latin_for looks_georgian
looks_like_georgian_latin_for-recipient is_letter strip_urls text recipient =
    let words = find_words [] (strip_urls text) in
    and-last (leb 1 (length words)) (is_latin is_letter (strip_urls text)) (is_english words) _ _
      (passes-bonus recipient words)
