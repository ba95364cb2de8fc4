-- ===== src/Structs/Trip/Events.antt =====
-- Events: what is written of each struct is read back.
use xrtransport.Common.{ℕ, ◌^◌, ◌<◌, Bool}
use xrtransport.Serialization.Stream.{ok}
use xrtransport.Serialization.Chain.{Table}
use xrtransport.Serialization.Chains.{IsTable, Prepared}
use xrtransport.Serialization.Word.{deserialize_word}
use xrtransport.Serialization.Wire.{read_time, Lands, last-Lands, scalar-Lands, scalar_first}
use xrtransport.Structs.Rows.{next_first, same_time-Lands, same_time_first}
use xrtransport.Structs.Events.{
  EventDataEventsLost, serialize_xr_event_data_events_lost, deserialize_xr_event_data_events_lost,
  EventDataInstanceLossPending, serialize_xr_event_data_instance_loss_pending,
  deserialize_xr_event_data_instance_loss_pending, EventDataInteractionProfileChanged,
  serialize_xr_event_data_interaction_profile_changed,
  deserialize_xr_event_data_interaction_profile_changed, EventDataReferenceSpaceChangePending,
  serialize_xr_event_data_reference_space_change_pending,
  deserialize_xr_event_data_reference_space_change_pending, EventDataSessionStateChanged,
  serialize_xr_event_data_session_state_changed, deserialize_xr_event_data_session_state_changed,
}
use xrtransport.Structs.Vectors.{deserialize_xr_posef}
use xrtransport.Structs.Trip.Vectors.{serialize_xr_posef-Lands}

module _ {P : Type 0} (Ready : ℕ → P → P → Type 0) (table : Table P) (t : IsTable Ready table) where
  pub serialize_xr_event_data_events_lost-Lands :
      (in_place : Bool) (old s : EventDataEventsLost P)
      → Prepared Ready table in_place old.next s.next
      → Lands
          (serialize_xr_event_data_events_lost table s)
          (deserialize_xr_event_data_events_lost table in_place old)
          (ok s)
  unfolding serialize_xr_event_data_events_lost deserialize_xr_event_data_events_lost
  serialize_xr_event_data_events_lost-Lands in_place old s p = scalar_first s.type _ (
      next_first Ready table t in_place old.next s.next _ p (
        last-Lands (deserialize_word 4) (ok s.lost_event_count)
          (λ x. record s { lost_event_count = x }) (scalar-Lands s.lost_event_count)))

  pub serialize_xr_event_data_instance_loss_pending-Lands :
      (time_offset : ℕ)
      → time_offset < 2 ^ 64
      → (in_place : Bool) (old s : EventDataInstanceLossPending P)
      → Prepared Ready table in_place old.next s.next
      → Lands
          (serialize_xr_event_data_instance_loss_pending table time_offset s)
          (deserialize_xr_event_data_instance_loss_pending table time_offset in_place old)
          (ok s)
  unfolding serialize_xr_event_data_instance_loss_pending
      deserialize_xr_event_data_instance_loss_pending
  serialize_xr_event_data_instance_loss_pending-Lands time_offset o in_place old s p =
      scalar_first s.type _ (
        next_first Ready table t in_place old.next s.next _ p (
          last-Lands (read_time time_offset) (ok s.loss_time) (λ x. record s { loss_time = x })
            (same_time-Lands time_offset s.loss_time o)))

  pub serialize_xr_event_data_interaction_profile_changed-Lands :
      (in_place : Bool) (old s : EventDataInteractionProfileChanged P)
      → Prepared Ready table in_place old.next s.next
      → Lands
          (serialize_xr_event_data_interaction_profile_changed table s)
          (deserialize_xr_event_data_interaction_profile_changed table in_place old)
          (ok s)
  unfolding serialize_xr_event_data_interaction_profile_changed
      deserialize_xr_event_data_interaction_profile_changed
  serialize_xr_event_data_interaction_profile_changed-Lands in_place old s p =
      scalar_first s.type _ (
        next_first Ready table t in_place old.next s.next _ p (
          last-Lands (deserialize_word 8) (ok s.session) (λ x. record s { session = x })
            (scalar-Lands s.session)))

  pub serialize_xr_event_data_reference_space_change_pending-Lands :
      (time_offset : ℕ)
      → time_offset < 2 ^ 64
      → (in_place : Bool) (old s : EventDataReferenceSpaceChangePending P)
      → Prepared Ready table in_place old.next s.next
      → Lands
          (serialize_xr_event_data_reference_space_change_pending table time_offset s)
          (deserialize_xr_event_data_reference_space_change_pending table time_offset in_place old)
          (ok s)
  unfolding serialize_xr_event_data_reference_space_change_pending
      deserialize_xr_event_data_reference_space_change_pending
  serialize_xr_event_data_reference_space_change_pending-Lands time_offset o in_place old s p =
      scalar_first s.type _ (
        next_first Ready table t in_place old.next s.next _ p (
          scalar_first s.session _ (
            scalar_first s.reference_space_type _ (
              same_time_first time_offset s.change_time _ o (
                scalar_first s.pose_valid _ (
                  last-Lands deserialize_xr_posef (ok s.pose_in_previous_space)
                    (λ x. record s { pose_in_previous_space = x })
                    (serialize_xr_posef-Lands s.pose_in_previous_space)))))))

  pub serialize_xr_event_data_session_state_changed-Lands :
      (time_offset : ℕ)
      → time_offset < 2 ^ 64
      → (in_place : Bool) (old s : EventDataSessionStateChanged P)
      → Prepared Ready table in_place old.next s.next
      → Lands
          (serialize_xr_event_data_session_state_changed table time_offset s)
          (deserialize_xr_event_data_session_state_changed table time_offset in_place old)
          (ok s)
  unfolding serialize_xr_event_data_session_state_changed
      deserialize_xr_event_data_session_state_changed
  serialize_xr_event_data_session_state_changed-Lands time_offset o in_place old s p =
      scalar_first s.type _ (
        next_first Ready table t in_place old.next s.next _ p (
          scalar_first s.session _ (
            scalar_first s.state _ (
              last-Lands (read_time time_offset) (ok s.at_time) (λ x. record s { at_time = x })
                (same_time-Lands time_offset s.at_time o)))))
