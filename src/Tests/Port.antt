-- ===== src/Tests/Port.antt =====
-- The serial port: the answer to a command, with an unsolicited line in the middle, while the reader and
-- Command take turns.
use abb_app.Base.{◌≡◌, ◌≢◌, refl, true, false, none, some, [], ◌∷◌, ◌++◌, arith}
use abb_app.Base.Text.{
  Text, codes, text_eq, has_prefix, trim_space, trim_end, drop_spaces, space_length, wide_length,
  reverse_onto, split_at, is_space,
}
use abb_app.Modem.At.{
  AtPort, Reply, begin_command, command, command_loop, dispatch, dispatch_lines, ending, fail,
  has_any_prefix, is_urc, timed_out,
}
use abb_app.Modem.At.Reader.{continued, lines_in, read_loop, read_loop-lines}
use abb_app.Modem.At.Exchange.{
  Exchange, Steps, next_byte, take_up, put, hands_on, arrives, done, next, pending_lines, started,
  take_line, takes,
}
use abb_app.Modem.At.Exchange.Held.{all_lines, in_hand}
use abb_app.Modem.At.Exchange.Confluent.{reply_alone, reply-reached}

abbrev idle_port : AtPort
idle_port = record { waiting = false; resp = codes "late" ∷ []; urc = [] }

abbrev bytes : Text
bytes = codes "ING" ++ 13 ∷ 10 ∷ codes "OK" ++ 10 ∷ []

abbrev with_waiting : AtPort
with_waiting = record { waiting = true; resp = []; urc = [] }

read_loop-lines_example : read_loop bytes (codes "EOF") with_waiting ≡ record {
  port = dispatch_lines with_waiting (lines_in bytes);
  raw = [];
  stopped = some (codes "EOF");
}
read_loop-lines_example = read_loop-lines bytes (codes "EOF") with_waiting

-- What is left of RING arrives, then the end of the response.
pub record Exchanged : Type 0 where
  pub last : Exchange
  pub steps : Steps (codes "AT") (started idle_port (codes "R") bytes) last

answered : Exchanged
unfolding started next_byte take_up put take_line begin_command dispatch has_any_prefix has_prefix
    trim_space trim_end drop_spaces space_length wide_length reverse_onto text_eq is_space ending
answered = record {
  last = _;
  steps = next _ _ _ (arrives _ b'I' _ refl refl refl) (
      next _ _ _ (arrives _ b'N' _ refl refl refl) (
        next _ _ _ (arrives _ b'G' _ refl refl refl) (
          next _ _ _ (arrives _ 13 _ refl refl refl) (
            next _ _ _ (arrives _ 10 _ refl refl refl) (
              next _ _ _ (hands_on _ true (codes "RING") refl) (
                next _ _ _ (arrives _ b'O' _ refl refl refl) (
                  next _ _ _ (arrives _ b'K' _ refl refl refl) (
                    next _ _ _ (arrives _ 10 _ refl refl refl) (
                      next _ _ _ (hands_on _ true (codes "OK") refl)
                        (next _ _ _ (takes _ (codes "OK") [] refl refl) (done _)))))))))));
}

abbrev good : Reply
good = record { lines = []; error = none }

few_lines : pending_lines (codes "R") bytes ≡ codes "RING" ∷ codes "OK" ∷ []
unfolding pending_lines continued split_at trim_space trim_end drop_spaces space_length wide_length
    reverse_onto text_eq is_space
few_lines = refl

alone_is_good : reply_alone (codes "AT") (codes "R") bytes ≡ good
unfolding command command_loop ending is_urc has_any_prefix has_prefix text_eq
alone_is_good = rw few_lines refl

nothing_left : all_lines answered.last ≡ []
unfolding answered started next_byte take_up put take_line begin_command dispatch has_any_prefix
    has_prefix trim_space trim_end drop_spaces space_length wide_length reverse_onto text_eq
    is_space ending pending_lines continued split_at in_hand
nothing_left = refl

timed_out_differs : good ≢ fail timed_out
timed_out_differs = λ e. cc e

reply-reached_example : answered.last.reply ≢ none
reply-reached_example =
    reply-reached (codes "AT") (codes "R") bytes idle_port answered.last
      (rw few_lines (omega arith)) (rw alone_is_good timed_out_differs) answered.steps nothing_left
