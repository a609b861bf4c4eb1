-- ===== src/Runtime/State/Store.antt =====
-- InMemoryConversationStateStore: what is saved is loaded again, and by its tenant alone.
use ai_receptionist.Base.{
  ◌≡◌, ◌≢◌, inl, inr, ap, ◌∙◌, String, Bool, true, ◌=ˢ◌, none, some, Dict, lookup, insert,
  lookup-insert, if◌then◌else◌, arith, eq_iff, Option-cases,
}
use ai_receptionist.Runtime.State.{ConversationState, Row, load, save}

module _ (is_valid : ConversationState → Bool) where
  lookup-save :
      (rows after : Dict Row) (conversation_id business_id : String) (state : ConversationState)
      → save is_valid rows conversation_id business_id state ≡ some after
      → (is_valid state ≡ true)
        × (after
            ≡ insert conversation_id (record { business_id = business_id; state = state }) rows)
  unfolding save
  lookup-save rows after conversation_id business_id state h =
      elim (Option-cases (lookup conversation_id rows)) [
        | inl fresh ↦ (ground arith, ground arith)
        | inr (existing, known) ↦ (ground arith, ground arith)
      ]

  -- A state that `save` stores is what `load` gives back for that conversation to the same tenant;
  -- every other tenant gets nothing for it, and every other conversation loads as before.
  pub save_then_load :
      (rows after : Dict Row) (conversation_id business_id elsewhere who : String)
      (state : ConversationState)
      → save is_valid rows conversation_id business_id state ≡ some after
      → load is_valid after elsewhere who ≡ (
          if conversation_id =ˢ elsewhere
          then (if business_id =ˢ who then some state else none)
          else load is_valid rows elsewhere who)
  unfolding load
  save_then_load rows after conversation_id business_id elsewhere who state h =
      let (valid, written) = lookup-save rows after conversation_id business_id state h in
      let row : Row = record { business_id = business_id; state = state } in
      let found =
        ap (lookup elsewhere) written ∙ lookup-insert conversation_id elsewhere row rows in
      ground (arith, found, valid)

  -- A conversation of one tenant is never overwritten by another: `save` throws, whatever the state.
  pub save_refuses_other_tenant :
      (rows : Dict Row) (conversation_id business_id : String) (state : ConversationState)
      (row : Row)
      → lookup conversation_id rows ≡ some row
      → row.business_id ≢ business_id
      → (save is_valid rows conversation_id business_id state ≡ none)
        × (load is_valid rows conversation_id business_id ≡ none)
  unfolding load save
  save_refuses_other_tenant rows conversation_id business_id state row known other = (
    ground (arith, eq_iff row.business_id business_id),
    ground (arith, eq_iff row.business_id business_id),
  )
