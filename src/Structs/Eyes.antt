-- ===== src/Structs/Eyes.antt =====
-- Views: their functions in src/common/serialization/serializer.cpp and deserializer.cpp.
use xrtransport.Common.{ℕ, Bool, false, List}
use xrtransport.Serialization.Stream.{Result, Reader, pure, ◌>>=◌}
use xrtransport.Serialization.Chain.{Chain, Table, serialize_xr, deserialize_xr}
use xrtransport.Serialization.Word.{Word, deserialize_word}
use xrtransport.Serialization.Wire.{◌⊕◌, scalar, time, read_time}
use xrtransport.Structs.Vectors.{
  Fovf, serialize_xr_fovf, deserialize_xr_fovf, Posef, serialize_xr_posef, deserialize_xr_posef,
}

-- XrView
pub record View (P : Type 0) : Type 0 where
  pub type : Word 4
  pub next : Chain P
  pub pose : Posef
  pub fov : Fovf

-- XrViewConfigurationProperties
pub record ViewConfigurationProperties (P : Type 0) : Type 0 where
  pub type : Word 4
  pub next : Chain P
  pub view_configuration_type : Word 4
  pub fov_mutable : Word 4

-- XrViewConfigurationView
pub record ViewConfigurationView (P : Type 0) : Type 0 where
  pub type : Word 4
  pub next : Chain P
  pub recommended_image_rect_width : Word 4
  pub max_image_rect_width : Word 4
  pub recommended_image_rect_height : Word 4
  pub max_image_rect_height : Word 4
  pub recommended_swapchain_sample_count : Word 4
  pub max_swapchain_sample_count : Word 4

-- XrViewLocateInfo
pub record ViewLocateInfo (P : Type 0) : Type 0 where
  pub type : Word 4
  pub next : Chain P
  pub view_configuration_type : Word 4
  pub display_time : Word 8
  pub space : Word 8

-- XrViewState
pub record ViewState (P : Type 0) : Type 0 where
  pub type : Word 4
  pub next : Chain P
  pub view_state_flags : Word 8

module _ {P : Type 0} (table : Table P) where
  unfoldable pub serialize_xr_view : View P → Result (List ℕ)
  serialize_xr_view s =
      scalar s.type
      ⊕ serialize_xr table false s.next
      ⊕ serialize_xr_posef s.pose
      ⊕ serialize_xr_fovf s.fov

  unfoldable pub deserialize_xr_view : Bool → View P → Reader (View P)
  deserialize_xr_view in_place old = do
    type ← deserialize_word 4
    next ← deserialize_xr table in_place old.next
    pose ← deserialize_xr_posef
    fov ← deserialize_xr_fovf
    pure (record { type = type; next = next; pose = pose; fov = fov })

  unfoldable pub serialize_xr_view_configuration_properties :
      ViewConfigurationProperties P → Result (List ℕ)
  serialize_xr_view_configuration_properties s =
      scalar s.type
      ⊕ serialize_xr table false s.next
      ⊕ scalar s.view_configuration_type
      ⊕ scalar s.fov_mutable

  unfoldable pub deserialize_xr_view_configuration_properties :
      Bool → ViewConfigurationProperties P → Reader (ViewConfigurationProperties P)
  deserialize_xr_view_configuration_properties in_place old = do
    type ← deserialize_word 4
    next ← deserialize_xr table in_place old.next
    view_configuration_type ← deserialize_word 4
    fov_mutable ← deserialize_word 4
    pure (record {
      type = type;
      next = next;
      view_configuration_type = view_configuration_type;
      fov_mutable = fov_mutable;
    })

  unfoldable pub serialize_xr_view_configuration_view : ViewConfigurationView P → Result (List ℕ)
  serialize_xr_view_configuration_view s =
      scalar s.type
      ⊕ serialize_xr table false s.next
      ⊕ scalar s.recommended_image_rect_width
      ⊕ scalar s.max_image_rect_width
      ⊕ scalar s.recommended_image_rect_height
      ⊕ scalar s.max_image_rect_height
      ⊕ scalar s.recommended_swapchain_sample_count
      ⊕ scalar s.max_swapchain_sample_count

  unfoldable pub deserialize_xr_view_configuration_view :
      Bool → ViewConfigurationView P → Reader (ViewConfigurationView P)
  deserialize_xr_view_configuration_view in_place old = do
    type ← deserialize_word 4
    next ← deserialize_xr table in_place old.next
    recommended_image_rect_width ← deserialize_word 4
    max_image_rect_width ← deserialize_word 4
    recommended_image_rect_height ← deserialize_word 4
    max_image_rect_height ← deserialize_word 4
    recommended_swapchain_sample_count ← deserialize_word 4
    max_swapchain_sample_count ← deserialize_word 4
    pure (record {
      type = type;
      next = next;
      recommended_image_rect_width = recommended_image_rect_width;
      max_image_rect_width = max_image_rect_width;
      recommended_image_rect_height = recommended_image_rect_height;
      max_image_rect_height = max_image_rect_height;
      recommended_swapchain_sample_count = recommended_swapchain_sample_count;
      max_swapchain_sample_count = max_swapchain_sample_count;
    })

  unfoldable pub serialize_xr_view_locate_info : ℕ → ViewLocateInfo P → Result (List ℕ)
  serialize_xr_view_locate_info time_offset s =
      scalar s.type
      ⊕ serialize_xr table false s.next
      ⊕ scalar s.view_configuration_type
      ⊕ time time_offset s.display_time
      ⊕ scalar s.space

  unfoldable pub deserialize_xr_view_locate_info :
      ℕ → Bool → ViewLocateInfo P → Reader (ViewLocateInfo P)
  deserialize_xr_view_locate_info time_offset in_place old = do
    type ← deserialize_word 4
    next ← deserialize_xr table in_place old.next
    view_configuration_type ← deserialize_word 4
    display_time ← read_time time_offset
    space ← deserialize_word 8
    pure (record {
      type = type;
      next = next;
      view_configuration_type = view_configuration_type;
      display_time = display_time;
      space = space;
    })

  unfoldable pub serialize_xr_view_state : ViewState P → Result (List ℕ)
  serialize_xr_view_state s =
      scalar s.type ⊕ serialize_xr table false s.next ⊕ scalar s.view_state_flags

  unfoldable pub deserialize_xr_view_state : Bool → ViewState P → Reader (ViewState P)
  deserialize_xr_view_state in_place old = do
    type ← deserialize_word 4
    next ← deserialize_xr table in_place old.next
    view_state_flags ← deserialize_word 8
    pure (record { type = type; next = next; view_state_flags = view_state_flags })
