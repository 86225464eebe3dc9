-- ===== src/Stammer/Plain.antt =====
-- An instance of `TextFields` for the tests: the first byte is the actor, the others are the sessions.
use atof.Prelude.{refl, get_or, drop, [], ◌∷◌}
use atof.Control.Plain.{plain_messages}
use atof.Stammer.RoutingTask.{TextFields}

abbrev pub plain_fields : TextFields plain_messages
plain_fields = record {
  get_actor = λ msg. get_or msg 0 0;
  set_actor = λ msg actor. actor ∷ drop 1 msg;
  get_session = λ msg. drop 1 msg;
  get_channel_id = λ msg. [];
  get_actor-set_actor = λ msg actor. refl;
}
