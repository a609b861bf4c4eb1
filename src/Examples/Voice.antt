-- ===== src/Examples/Voice.antt =====
-- Properties of the call states at concrete input.
use ai_receptionist.Base.{refl, [], ◌∷◌}
use ai_receptionist.Voice.CallState.{
  dialing, ringing, connected, can_transition_call, state_in, transitions,
}
use ai_receptionist.Voice.CallState.Paths.{Route}

roundabout : Route dialing (ringing ∷ connected ∷ []) connected
unfolding can_transition_call state_in transitions
roundabout = Route.hop refl (Route.hop refl Route.arrived)
