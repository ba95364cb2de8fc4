-- ===== src/Serialization/FrameEnd.antt =====
-- The custom serializer and deserializer of `XrFrameEndInfo`, in
-- src/common/serialization/custom_serializer.cpp and custom_deserializer.cpp: an array of pointers to
-- composition layers, each with its chain.
use xrtransport.Common.{
  ℕ, ◌^◌, ◌<◌, ◌≡◌, refl, subst, ◌∙◌, Bool, false, List, [], ◌++◌, replicate, take, drop,
  if◌then◌else◌,
}
use xrtransport.Serialization.Stream.{
  Result, ok, Reader, pure, ◌>>=◌, bind, Reads, >>=-Reads, bind-eq-ok, ok-injective,
}
use xrtransport.Serialization.Bytes.{serialize, deserialize, deserialize-serialize, u32}
use xrtransport.Serialization.Pointer.{Codec, serialize_array, deserialize_array}
use xrtransport.Serialization.Pointers.{
  IsCodec, AllReady, deserialize_array-serialize_array, serialize_array-write,
}
use xrtransport.Serialization.Chain.{Chain, Table, serialize_xr, deserialize_xr}
use xrtransport.Serialization.Chains.{IsTable, Prepared}
use xrtransport.Serialization.ChainTrip.{deserialize_xr-serialize_xr, strict_known}
use xrtransport.Serialization.Times.{
  serialize_time, deserialize_time, deserialize_time-serialize_time,
}

-- `layers` is the memory behind the pointer; a layer is the chain that begins with it.
pub record FrameEndInfo (P : Type 0) : Type 0 where
  pub type : ℕ
  pub next : Chain P
  pub display_time : ℕ
  pub environment_blend_mode : ℕ
  pub layer_count : ℕ
  pub layers : List (Chain P)

module _ {P : Type 0} (table : Table P) where
  -- One turn of the loops over the layers.
  abbrev pub layer_codec : Bool → Bool → Codec (Chain P)
  layer_codec skip in_place = record {
    write = serialize_xr table skip;
    read = deserialize_xr table in_place;
  }

  unfoldable pub serialize_frame_end_info : ℕ → Bool → FrameEndInfo P → Result (List ℕ)
  serialize_frame_end_info time_offset skip s = bind (serialize_xr table skip s.next) (λ bs.
      bind (serialize_array (layer_codec skip false) s.layers s.layer_count) (λ cs. ok (
        serialize u32 s.type
        ++ (bs
            ++ (serialize_time time_offset s.display_time
                ++ (serialize u32 s.environment_blend_mode
                    ++ (serialize u32 s.layer_count ++ cs)))))))

  unfoldable pub deserialize_frame_end_info : ℕ → Bool → FrameEndInfo P → Reader (FrameEndInfo P)
  deserialize_frame_end_info time_offset in_place old = do
    type ← deserialize u32
    next ← deserialize_xr table in_place old.next
    display_time ← deserialize_time time_offset
    environment_blend_mode ← deserialize u32
    layer_count ← deserialize u32
    layers ←
        deserialize_array (layer_codec false in_place)
          (if in_place then old.layers else replicate layer_count []) layer_count
    pure (record {
      type = type;
      next = next;
      display_time = display_time;
      environment_blend_mode = environment_blend_mode;
      layer_count = layer_count;
      layers = layers;
    })

-- The members fit their types.
pub record FitsMembers {P : Type 0} (s : FrameEndInfo P) : Type 0 where
  pub type_fits : s.type < 2 ^ 32
  pub time_fits : s.display_time < 2 ^ 64
  pub mode_fits : s.environment_blend_mode < 2 ^ 32
  pub count_fits : s.layer_count < 2 ^ 32

module _ {P : Type 0} (Ready : ℕ → P → P → Type 0) (table : Table P) (T : IsTable Ready table) where
  layer_codec-IsCodec :
      (in_place : Bool) → IsCodec (Prepared Ready table in_place) (layer_codec table false in_place)
  layer_codec-IsCodec in_place = record {
    read-write = λ old ns bs r h.
        let k = strict_known table ns bs h in
        subst (λ ks. Reads (deserialize_xr table in_place old) bs ks) k
          (deserialize_xr-serialize_xr table Ready false in_place ns old bs T h (rw k r));
  }

  abbrev pub memory : Bool → FrameEndInfo P → ℕ → List (Chain P)
  memory in_place old count = if in_place then old.layers else replicate count []

  -- The end of a frame arrives as it was sent, with its layers and their chains, if both sides use the
  -- same time offset and every struct is of a known type; in place, memory behind the layers stays.
  pub deserialize_frame_end_info-serialize_frame_end_info :
      (time_offset : ℕ) (in_place : Bool) (old s : FrameEndInfo P) (bs : List ℕ)
      → time_offset < 2 ^ 64
      → FitsMembers s
      → Prepared Ready table in_place old.next s.next
      → AllReady
          (Prepared Ready table in_place)
          (memory in_place old s.layer_count)
          s.layers
          s.layer_count
      → serialize_frame_end_info table time_offset false s ≡ ok bs
      → Reads (deserialize_frame_end_info table time_offset in_place old) bs (record s {
        layers =
            take s.layer_count s.layers ++ drop s.layer_count (memory in_place old s.layer_count);
      })
  unfolding serialize_frame_end_info deserialize_frame_end_info
  deserialize_frame_end_info-serialize_frame_end_info time_offset in_place old s bs o f p r h =
      let (ns, en, h1) = bind-eq-ok (serialize_xr table false s.next) _ h in
      let (ls, el, h2) =
        bind-eq-ok (serialize_array (layer_codec table false false) s.layers s.layer_count) _ h1 in
      let el' =
        serialize_array-write (layer_codec table false in_place) (layer_codec table false false)
          s.layers s.layer_count (λ x. refl)
        ∙ el in
      let layers =
        deserialize_array-serialize_array (Prepared Ready table in_place)
          (layer_codec table false in_place) (layer_codec-IsCodec in_place) s.layer_count
          (memory in_place old s.layer_count) s.layers ls r el' in
      rw (← ok-injective h2) (
        >>=-Reads (deserialize u32) _ (serialize u32 s.type) _
          (deserialize-serialize u32 s.type f.type_fits)
          (>>=-Reads (deserialize_xr table in_place old.next) _ ns _
            ((layer_codec-IsCodec in_place).read-write old.next s.next ns p en)
            (>>=-Reads (deserialize_time time_offset) _ (serialize_time time_offset s.display_time)
              _
              (deserialize_time-serialize_time time_offset time_offset s.display_time o
                f.time_fits).1
              (>>=-Reads (deserialize u32) _ (serialize u32 s.environment_blend_mode) _
                (deserialize-serialize u32 s.environment_blend_mode f.mode_fits)
                (>>=-Reads (deserialize u32) _ (serialize u32 s.layer_count) ls
                  (deserialize-serialize u32 s.layer_count f.count_fits)
                  (λ rest. rw (layers rest, ◌>>=◌)))))))
