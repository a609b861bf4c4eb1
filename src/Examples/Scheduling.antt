-- ===== src/Examples/Scheduling.antt =====
-- Properties of the appointment statuses at concrete input.
use ai_receptionist.Base.{refl, [], ◌∷◌}
use ai_receptionist.Scheduling.Status.{
  pending, confirmed, checked_in, running_late, in_progress, completed, status_in, can_transition,
}
use ai_receptionist.Scheduling.Status.Lifetime.{Life}

longest-Life :
    Life pending (confirmed ∷ running_late ∷ checked_in ∷ in_progress ∷ completed ∷ []) completed
unfolding can_transition status_in
longest-Life =
    Life.moved refl
      (Life.moved refl (Life.moved refl (Life.moved refl (Life.moved refl Life.ended))))
