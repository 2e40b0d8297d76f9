-- ===== src/Modem/Discovery/Order.antt =====
-- Go's order of strings, and insertion by it.
use abb_app.Base.{◌≡◌, refl, Bool, true, false, ◌||◌, ◌&&◌, [], ◌∷◌, ltb, ◌==◌, arith}
use abb_app.Base.Text.{Text, text_eq}

-- s < t
unfoldable pub text_lt : Text → Text → Bool
text_lt s [] = false
text_lt [] (c ∷ t) = true
text_lt (b ∷ s) (c ∷ t) = ltb b c || (b == c && text_lt s t)

-- Of two different texts one is the smaller.
pub text_lt-total : (s t : Text) → text_eq s t ≡ false → text_lt t s ≡ false → text_lt s t ≡ true
unfolding text_lt text_eq
text_lt-total [] [] d h = absurd cc
text_lt-total [] (c ∷ t) d h = refl
text_lt-total (b ∷ s) [] d h = absurd cc
text_lt-total (b ∷ s) (c ∷ t) d h = let rest = text_lt-total s t in ground (arith, rest)

pub text_lt-irreflexive : (s : Text) → text_lt s s ≡ false
unfolding text_lt
text_lt-irreflexive [] = refl
text_lt-irreflexive (c ∷ s) = let rest = text_lt-irreflexive s in ground (arith, rest)
