-- ===== src/Store.antt =====
-- src/FloralCodecStore.cpp: which components the store registers, and how it finds one by its
-- name. The device that `CapabilityProbe` finds for a codec is a parameter.
mod Examples
pub mod Registered
use Prim.Native.String.{String}
use text.Mathlib.Text.{◌==◌}
use hardware_floral_codec.Common.{
  ℕ, Bool, true, false, Option, none, some, List, [], ◌∷◌, ◌++◌, is_empty, ◌&&◌, if◌then◌else◌,
}
use hardware_floral_codec.CodecSpec.{CodecDirection, decode, encode, MediaType, CodecSpec}

pub data Kind : Type 0 where
  kind_encoder kind_decoder : Kind

-- `ToC2Kind`.
unfoldable pub to_c2_kind : CodecDirection → Kind
to_c2_kind encode = kind_encoder
to_c2_kind decode = kind_decoder

-- `ComponentEntry`, and the fields of `C2Component::Traits` that differ from one codec to the next.
pub record ComponentEntry : Type 0 where
  pub spec : CodecSpec
  pub device_path : String

pub record Traits : Type 0 where
  pub name : String
  pub kind : Kind
  pub media_type : MediaType

-- `components_`, a map by name, and `traits_`.
pub record FloralCodecStore : Type 0 where
  pub components : List (String × ComponentEntry)
  pub traits : List Traits

unfoldable pub find : String → List (String × ComponentEntry) → Option ComponentEntry
find name [] = none
find name ((key, e) ∷ entries) =
    let later = find name entries in if key == name then some e else later

-- `std::map::emplace`: a key that is there keeps its entry.
unfoldable pub emplace :
    String → ComponentEntry → List (String × ComponentEntry) → List (String × ComponentEntry)
unfolding find
emplace name e entries = elim (find name entries) [
  | none ↦ (name, e) ∷ entries
  | some old ↦ entries
]

unfoldable pub traits_of : CodecSpec → Traits
unfolding to_c2_kind
traits_of spec = record {
  name = spec.component_name;
  kind = to_c2_kind spec.direction;
  media_type = spec.media_type;
}

-- The body of the constructor's loop.
unfoldable pub register : CodecSpec → Option String → FloralCodecStore → FloralCodecStore
unfolding emplace traits_of
register spec none store = store
register spec (some path) store = record {
  components =
      emplace spec.component_name (record { spec = spec; device_path = path }) store.components;
  traits = store.traits ++ (traits_of spec ∷ []);
}

unfoldable pub register_all :
    (CodecSpec → Option String) → List CodecSpec → FloralCodecStore → FloralCodecStore
unfolding register
register_all find_device_path [] store = store
register_all find_device_path (spec ∷ specs) store =
    register_all find_device_path specs (register spec (find_device_path spec) store)

abbrev pub empty_store : FloralCodecStore
empty_store = record { components = []; traits = [] }

-- The constructor. `none`: there is no probe.
unfoldable pub new_store : Option (CodecSpec → Option String) → List CodecSpec → FloralCodecStore
unfolding register_all
new_store none specs = empty_store
new_store (some find_device_path) specs = register_all find_device_path specs empty_store

pub data Status : Type 0 where
  c2_ok c2_bad_value c2_not_found c2_bad_index c2_omitted : Status

-- `createComponent` and `createInterface`, up to the call that makes the component: the status, or
-- the entry that the call is given.
pub data Lookup : Type 0 where
  refused : Status → Lookup
  create : ComponentEntry → Lookup

abbrev pub found : Option ComponentEntry → Lookup
found none = refused c2_not_found
found (some e) = create e

-- `is_null`: the place for the result is a null pointer.
unfoldable pub create_component : FloralCodecStore → Bool → String → Lookup
unfolding find
create_component store true name = refused c2_bad_value
create_component store false name = found (find name store.components)

-- The store has no parameters of its own, so each of these refuses any that it is asked for.
module _ {A : Type 0} where
  -- `query_sm` on the parameters of the stack and the indices of the heap.
  unfoldable pub query_sm : {B : Type 0} → List A → List B → Status
  query_sm stack_params heap_param_indices =
      if is_empty stack_params && is_empty heap_param_indices then c2_ok else c2_bad_index

  -- `config_sm`.
  unfoldable pub config_sm : List A → Status
  config_sm params = if is_empty params then c2_ok else c2_bad_index

  -- `querySupportedParams_nb`: the status and the parameters, with `none` for a null pointer.
  unfoldable pub query_supported_params_nb : Option (List A) → Status × Option (List A)
  query_supported_params_nb none = (c2_bad_value, none)
  query_supported_params_nb (some params) = (c2_ok, some [])

  -- `querySupportedValues_sm`.
  unfoldable pub query_supported_values_sm : List A → Status
  query_supported_values_sm fields = if is_empty fields then c2_ok else c2_bad_index

  -- `copyBuffer`.
  unfoldable pub copy_buffer : A → A → Status
  copy_buffer source destination = c2_omitted
