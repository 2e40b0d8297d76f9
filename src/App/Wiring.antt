-- ===== src/App/Wiring.antt =====
-- cmd/abb/main.go: the senders and the translator that the configuration asks for, and the service
-- messages that go to every sender.
use abb_app.Base.{
  ℕ, Bool, ◌&&◌, ◌||◌, not, Option, none, some, List, [], ◌∷◌, ◌++◌, map, length, if◌then◌else◌,
}
use abb_app.Base.Text.{Text, codes, text_eq, decimal}
use abb_app.Base.Assoc.{insert}
use abb_app.Model.{Message}
use abb_app.Db.Session.{Outcome, ok, err}
use abb_app.Dispatcher.{Sender, Senders}
use abb_app.App.Save.{Translator}
use abb_app.App.Loop.{fetch_device_name}
use abb_app.Modem.Worker.Fields.{Info}

-- What buildSenders reads, with what the constructors answer: NewTelegramSender can fail.
pub record SenderConfig : Type 0 where
  pub token : Text
  pub telegram : Outcome Sender
  pub email_enabled : Bool
  pub email : Sender
  pub ntfy_enabled : Bool
  pub ntfy : Sender

abbrev put_made : Outcome Sender → Senders → Senders
put_made (err e) senders = senders
put_made (ok s) senders = insert (codes "telegram") s senders

abbrev has_token : SenderConfig → Bool
has_token c = not (text_eq c.token []) && not (text_eq c.token (codes "BOT_TOKEN"))

-- buildSenders
unfoldable pub build_senders : SenderConfig → Senders
build_senders c =
    let s1 : Senders = if has_token c then put_made c.telegram [] else [] in
    let s2 : Senders = if c.email_enabled then insert (codes "email") c.email s1 else s1 in
    if c.ntfy_enabled then insert (codes "ntfy") c.ntfy s2 else s2

-- buildTranslator; `made` is what NewYandex answers.
unfoldable pub build_translator : Bool → Text → Text → Translator → Option Translator
build_translator enabled api_key folder_id made =
    if not enabled
    then none
    else if text_eq api_key [] || text_eq folder_id []
    then none
    else some made

-- orDash
abbrev pub or_dash : Text → Text
or_dash s = if text_eq s [] then codes "-" else s

-- The message of `notify`.
abbrev pub service_message : Text → ℕ → Message
service_message body now = record {
  android_id = [];
  subscription_id = [];
  address = codes "ABB";
  body = body;
  translation = [];
  device_name = [];
  sim_name = [];
  source = [];
  recipient = [];
  received_at = now;
}

-- notify: what each sender answers, with how many calls it has had before. The order in which Go goes
-- through the map is open.
unfoldable pub notify : (Text → ℕ) → Senders → Text → ℕ → List (Text × Outcome (Unit {0}))
notify calls [] body now = []
notify calls ((name, s) ∷ senders) body now =
    (name, s.send (calls name) (service_message body now)) ∷ notify calls senders body now

abbrev sim_of : Info → Text
sim_of i = if text_eq i.number [] then i.operator else i.number

abbrev newline : Text
newline = 10 ∷ []

-- The texts of OnConnect and OnDisconnect.
unfoldable pub connected_text : Info → Text
connected_text i =
    codes "Modem connected: "
    ++ (i.name
        ++ (newline
            ++ (codes "Number: "
                ++ (or_dash (sim_of i) ++ (newline ++ (codes "IMEI: " ++ or_dash i.imei))))))

unfoldable pub disconnected_text : Info → Text
disconnected_text i =
    codes "Modem disconnected: " ++ (i.name ++ (codes " (" ++ (or_dash (sim_of i) ++ codes ")")))

-- The line of a device, given its serial and what `getprop` answers.
unfoldable pub device_line : Text × Outcome Text → Text
device_line (serial, model) =
    let name = fetch_device_name model in
    if text_eq name []
    then codes "  " ++ serial
    else codes "  " ++ (name ++ (codes " (" ++ (serial ++ codes ")")))

-- strings.Join(lines, "\n")
unfoldable pub join_lines : List Text → Text
join_lines [] = []
join_lines (l ∷ []) = l
join_lines (l ∷ m ∷ ls) = l ++ (newline ++ join_lines (m ∷ ls))

abbrev with_lines : Text → List Text → Text
with_lines body [] = body
with_lines body (l ∷ ls) = body ++ (newline ++ join_lines (l ∷ ls))

abbrev listed_devices : Outcome (List (Text × Outcome Text)) → List (Text × Outcome Text)
listed_devices (err e) = []
listed_devices (ok ds) = ds

-- sendStartupNotification up to `notify`, for the answer of DeviceList.
unfoldable pub startup_text : Text → Outcome (List (Text × Outcome Text)) → Text
unfolding device_line join_lines
startup_text version answer =
    let ds = listed_devices answer in
    with_lines
      (codes "Started. Version: "
        ++ (version ++ (newline ++ (codes "Devices connected: " ++ decimal (length ds)))))
      (map device_line ds)
