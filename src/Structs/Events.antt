-- ===== src/Structs/Events.antt =====
-- Events: their functions in src/common/serialization/serializer.cpp and deserializer.cpp.
use xrtransport.Common.{ℕ, Bool, false, List}
use xrtransport.Serialization.Stream.{Result, Reader, pure, ◌>>=◌}
use xrtransport.Serialization.Chain.{Chain, Table, serialize_xr, deserialize_xr}
use xrtransport.Serialization.Word.{Word, deserialize_word}
use xrtransport.Serialization.Wire.{◌⊕◌, scalar, time, read_time}
use xrtransport.Structs.Vectors.{Posef, serialize_xr_posef, deserialize_xr_posef}

-- XrEventDataEventsLost
pub record EventDataEventsLost (P : Type 0) : Type 0 where
  pub type : Word 4
  pub next : Chain P
  pub lost_event_count : Word 4

-- XrEventDataInstanceLossPending
pub record EventDataInstanceLossPending (P : Type 0) : Type 0 where
  pub type : Word 4
  pub next : Chain P
  pub loss_time : Word 8

-- XrEventDataInteractionProfileChanged
pub record EventDataInteractionProfileChanged (P : Type 0) : Type 0 where
  pub type : Word 4
  pub next : Chain P
  pub session : Word 8

-- XrEventDataReferenceSpaceChangePending
pub record EventDataReferenceSpaceChangePending (P : Type 0) : Type 0 where
  pub type : Word 4
  pub next : Chain P
  pub session : Word 8
  pub reference_space_type : Word 4
  pub change_time : Word 8
  pub pose_valid : Word 4
  pub pose_in_previous_space : Posef

-- XrEventDataSessionStateChanged
pub record EventDataSessionStateChanged (P : Type 0) : Type 0 where
  pub type : Word 4
  pub next : Chain P
  pub session : Word 8
  pub state : Word 4
  pub at_time : Word 8

module _ {P : Type 0} (table : Table P) where
  unfoldable pub serialize_xr_event_data_events_lost : EventDataEventsLost P → Result (List ℕ)
  serialize_xr_event_data_events_lost s =
      scalar s.type ⊕ serialize_xr table false s.next ⊕ scalar s.lost_event_count

  unfoldable pub deserialize_xr_event_data_events_lost :
      Bool → EventDataEventsLost P → Reader (EventDataEventsLost P)
  deserialize_xr_event_data_events_lost in_place old = do
    type ← deserialize_word 4
    next ← deserialize_xr table in_place old.next
    lost_event_count ← deserialize_word 4
    pure (record { type = type; next = next; lost_event_count = lost_event_count })

  unfoldable pub serialize_xr_event_data_instance_loss_pending :
      ℕ → EventDataInstanceLossPending P → Result (List ℕ)
  serialize_xr_event_data_instance_loss_pending time_offset s =
      scalar s.type ⊕ serialize_xr table false s.next ⊕ time time_offset s.loss_time

  unfoldable pub deserialize_xr_event_data_instance_loss_pending :
      ℕ → Bool → EventDataInstanceLossPending P → Reader (EventDataInstanceLossPending P)
  deserialize_xr_event_data_instance_loss_pending time_offset in_place old = do
    type ← deserialize_word 4
    next ← deserialize_xr table in_place old.next
    loss_time ← read_time time_offset
    pure (record { type = type; next = next; loss_time = loss_time })

  unfoldable pub serialize_xr_event_data_interaction_profile_changed :
      EventDataInteractionProfileChanged P → Result (List ℕ)
  serialize_xr_event_data_interaction_profile_changed s =
      scalar s.type ⊕ serialize_xr table false s.next ⊕ scalar s.session

  unfoldable pub deserialize_xr_event_data_interaction_profile_changed :
      Bool → EventDataInteractionProfileChanged P → Reader (EventDataInteractionProfileChanged P)
  deserialize_xr_event_data_interaction_profile_changed in_place old = do
    type ← deserialize_word 4
    next ← deserialize_xr table in_place old.next
    session ← deserialize_word 8
    pure (record { type = type; next = next; session = session })

  unfoldable pub serialize_xr_event_data_reference_space_change_pending :
      ℕ → EventDataReferenceSpaceChangePending P → Result (List ℕ)
  serialize_xr_event_data_reference_space_change_pending time_offset s =
      scalar s.type
      ⊕ serialize_xr table false s.next
      ⊕ scalar s.session
      ⊕ scalar s.reference_space_type
      ⊕ time time_offset s.change_time
      ⊕ scalar s.pose_valid
      ⊕ serialize_xr_posef s.pose_in_previous_space

  unfoldable pub deserialize_xr_event_data_reference_space_change_pending :
      ℕ
      → Bool
      → EventDataReferenceSpaceChangePending P
      → Reader (EventDataReferenceSpaceChangePending P)
  deserialize_xr_event_data_reference_space_change_pending time_offset in_place old = do
    type ← deserialize_word 4
    next ← deserialize_xr table in_place old.next
    session ← deserialize_word 8
    reference_space_type ← deserialize_word 4
    change_time ← read_time time_offset
    pose_valid ← deserialize_word 4
    pose_in_previous_space ← deserialize_xr_posef
    pure (record {
      type = type;
      next = next;
      session = session;
      reference_space_type = reference_space_type;
      change_time = change_time;
      pose_valid = pose_valid;
      pose_in_previous_space = pose_in_previous_space;
    })

  unfoldable pub serialize_xr_event_data_session_state_changed :
      ℕ → EventDataSessionStateChanged P → Result (List ℕ)
  serialize_xr_event_data_session_state_changed time_offset s =
      scalar s.type
      ⊕ serialize_xr table false s.next
      ⊕ scalar s.session
      ⊕ scalar s.state
      ⊕ time time_offset s.at_time

  unfoldable pub deserialize_xr_event_data_session_state_changed :
      ℕ → Bool → EventDataSessionStateChanged P → Reader (EventDataSessionStateChanged P)
  deserialize_xr_event_data_session_state_changed time_offset in_place old = do
    type ← deserialize_word 4
    next ← deserialize_xr table in_place old.next
    session ← deserialize_word 8
    state ← deserialize_word 4
    at_time ← read_time time_offset
    pure (record { type = type; next = next; session = session; state = state; at_time = at_time })
