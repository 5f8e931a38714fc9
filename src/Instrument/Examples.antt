-- ===== src/Instrument/Examples.antt =====
-- A request of two messages, behind the middleware.
use enova.Prelude.{refl, String, Bool, true, false, List, [], ◌∷◌}
use enova.Instrument.{Message, Scope, call}
use enova.Instrument.Replay.{Replays, call-Replays}

abbrev part : String → Bool → Message
part body more = record { kind = "http.request"; body = body; more_body = more }

abbrev inbox : List Message
inbox = part "{\"prompt\":" true ∷ part "\"a\"}" false ∷ []

abbrev completions : Scope
completions = record { type_ = "http"; method = "POST"; path = "/v1/completions" }

call-Replays_example : Replays inbox 2 (call completions inbox)
call-Replays_example = call-Replays completions inbox 2 refl
