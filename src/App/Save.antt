-- ===== src/App/Save.antt =====
-- `saveAndEnqueue` of cmd/abb/main.go: a received message is stored, translated and queued.
use abb_app.Base.{ℕ, ◌+◌, Bool, true, false, Option, none, some, List, [], ◌∷◌, if◌then◌else◌}
use abb_app.Base.Text.{Text, text_eq}
use abb_app.Model.{Message}
use abb_app.Db.Session.{Outcome, ok, err, World, exec}
use abb_app.Db.Messages.{save_message, update_translation}
use abb_app.Db.Outbox.{create_outbox_entry}

-- *translator.Yandex as this function uses it. `translate_for` answers with the translated text and
-- the detected language. Its answer comes over the network.
pub record Translator : Type 0 where
  pub target_lang : Text
  pub translate_for : Text → Text → Outcome (Text × Text)

abbrev pub count_received : World → World
count_received w = record w {
  metrics = record w.metrics { sms_received = w.metrics.sms_received + 1 };
}

-- Behind TranslateFor. A failed translation, or a failed update, is only logged.
unfoldable pub store_translation : Translator → ℕ → Outcome (Text × Text) → World → World
store_translation tr id (err e) w = w
store_translation tr id (ok (translated, lang)) w =
    if text_eq lang tr.target_lang then w else (exec (update_translation id translated) w).1

unfoldable pub translate : Option Translator → Message → ℕ → World → World
unfolding store_translation
translate none msg id w = w
translate (some tr) msg id w = store_translation tr id (tr.translate_for msg.body msg.recipient) w

-- The loop over the channels. A failed entry is only logged.
unfoldable pub enqueue : ℕ → List Text → World → World
enqueue id [] w = w
enqueue id (ch ∷ channels) w = enqueue id channels (exec (create_outbox_entry id ch) w).1

-- Behind SaveMessage. The answer says whether `go disp.DispatchOnce(ctx)` was started.
unfoldable pub after_save :
    Option Translator → List Text → Message → Outcome (ℕ × Bool) → World → Outcome Bool × World
unfolding translate enqueue
after_save tr channels msg (err e) w = (err e, w)
after_save tr channels msg (ok (id, false)) w = (ok false, w)
after_save tr channels msg (ok (id, true)) w =
    (ok true, enqueue id channels (translate tr msg id (count_received w)))

unfoldable pub save_and_enqueue :
    Option Translator → List Text → Message → World → Outcome Bool × World
unfolding after_save
save_and_enqueue tr channels msg w =
    let (r, w') = save_message msg w in after_save tr channels msg r w'
