-- ===== src/Probe/Vaapi/Usable.antt =====
-- What a VA-API device offers for a codec that it is chosen for.
use hardware_floral_codec.Common.{
  ℕ, ◌≡◌, ◌≢◌, inl, inr, refl, Bool, true, Option, none, some, List, [], ◌∷◌, any, bit_and, arith,
  Bool-cases,
}
use hardware_floral_codec.CodecSpec.{CodecDirection, VaProfile, CodecSpec}
use hardware_floral_codec.Probe.{Text}
use hardware_floral_codec.Probe.Vaapi.{
  VaEntrypoint, VaDisplay, supports_direction, makes_config, usable_loop, usable_entrypoints,
  has_usable_configuration, Ffmpeg, has_ffmpeg_codec, VaapiDevice, first_usable, find_vaapi_path,
}

pub data In {A : Type 0} (a : A) : List A → Type 0 where
  first : {rest : List A} → In a (a ∷ rest)
  later : {b : A} {rest : List A} → In a rest → In a (b ∷ rest)

-- An entry point for the direction, with 4:2:0 pictures, that a configuration can be made of.
pub record Offers (d : VaDisplay) (direction : CodecDirection) (profile : VaProfile) : Type 0 where
  pub entrypoints : List VaEntrypoint
  pub entrypoint : VaEntrypoint
  pub format : ℕ
  pub listed : d.config_entrypoints profile ≡ some entrypoints
  pub among : In entrypoint entrypoints
  pub directed : supports_direction direction entrypoint ≡ true
  pub reported : d.rt_format profile entrypoint ≡ some format
  pub yuv420 : bit_and format 1 ≢ 0
  pub configured : d.create_config profile entrypoint format ≡ true

makes_config_sound :
    (d : VaDisplay) (profile : VaProfile) (e : VaEntrypoint) (o : Option ℕ)
    → makes_config d profile e o ≡ true
    → (v : ℕ) × (o ≡ some v) × (bit_and v 1 ≢ 0) × (d.create_config profile e v ≡ true)
unfolding makes_config
makes_config_sound d profile e none h = cc
makes_config_sound d profile e (some v) h = (v, refl, ground arith, ground arith)

usable_loop_sound :
    (d : VaDisplay) (profile : VaProfile) (direction : CodecDirection) (es : List VaEntrypoint)
    → usable_loop d profile direction es ≡ true
    → (e : VaEntrypoint) × In e es
      × (supports_direction direction e ≡ true)
      × (makes_config d profile e (d.rt_format profile e) ≡ true)
unfolding usable_loop
usable_loop_sound d profile direction [] h = cc
usable_loop_sound d profile direction (e ∷ es) h =
    elim (Bool-cases (supports_direction direction e)) [
      | inr wrong ↦
          let (x, i, s, c) = usable_loop_sound d profile direction es (rw wrong at h) in
          (x, later i, s, c)
      | inl right ↦ elim (Bool-cases (makes_config d profile e (d.rt_format profile e))) [
        | inl makes ↦ (e, first, right, makes)
        | inr fails ↦
            let (x, i, s, c) = usable_loop_sound d profile direction es (rw (right, fails) at h) in
            (x, later i, s, c)
      ]
    ]

entrypoints_sound :
    (d : VaDisplay) (profile : VaProfile) (direction : CodecDirection)
    (o : Option (List VaEntrypoint))
    → usable_entrypoints d profile direction o ≡ true
    → (es : List VaEntrypoint) × (o ≡ some es) × (usable_loop d profile direction es ≡ true)
entrypoints_sound d profile direction none h = cc
entrypoints_sound d profile direction (some es) h = (es, refl, h)

has_usable_configuration-Offers :
    (d : VaDisplay) (direction : CodecDirection) (profile : VaProfile)
    → has_usable_configuration d direction profile ≡ true
    → Offers d direction profile
unfolding has_usable_configuration
has_usable_configuration-Offers d direction profile h =
    let (es, listed, u) =
      entrypoints_sound d profile direction (d.config_entrypoints profile) (ground arith) in
    let (e, among, directed, makes) = usable_loop_sound d profile direction es u in
    let (v, reported, yuv420, configured) =
      makes_config_sound d profile e (d.rt_format profile e) makes in
    record {
      entrypoints = es;
      entrypoint = e;
      format = v;
      listed = listed;
      among = among;
      directed = directed;
      reported = reported;
      yuv420 = yuv420;
      configured = configured;
    }

any-In :
    {A : Type 0} (p : A → Bool) (xs : List A) → any p xs ≡ true → (a : A) × In a xs × (p a ≡ true)
any-In p [] h = cc
any-In p (x ∷ xs) h = elim (Bool-cases (p x)) [
  | inl good ↦ (x, first, good)
  | inr bad ↦ let (a, i, q) = any-In p xs (rw bad at h) in (a, later i, q)
]

-- A device of the probe at the path, with a profile of the codec that it offers.
pub record IsChosen (devices : List VaapiDevice) (spec : CodecSpec) (path : Text) : Type 0 where
  pub device : VaapiDevice
  pub profile : VaProfile
  pub probed : In device devices
  pub at_path : device.path ≡ path
  pub of_codec : In profile spec.va_profiles
  pub offers : Offers device.display spec.direction profile

first_usable-IsChosen :
    (devices : List VaapiDevice) (spec : CodecSpec) (path : Text)
    → first_usable devices spec ≡ some path
    → IsChosen devices spec path
unfolding first_usable
first_usable-IsChosen [] spec path h = cc
first_usable-IsChosen (d ∷ devices) spec path h =
    elim (Bool-cases (any (has_usable_configuration d.display spec.direction) spec.va_profiles)) [
      | inl good ↦
          let (profile, of_codec, q) =
            any-In (has_usable_configuration d.display spec.direction) spec.va_profiles good in
          record {
            device = d;
            profile = profile;
            probed = first;
            at_path = cc (rw good at h);
            of_codec = of_codec;
            offers = has_usable_configuration-Offers d.display spec.direction profile q;
          }
      | inr bad ↦
          let rest = first_usable-IsChosen devices spec path (rw bad at h) in
          record {
            device = rest.device;
            profile = rest.profile;
            probed = later rest.probed;
            at_path = rest.at_path;
            of_codec = rest.of_codec;
            offers = rest.offers;
          }
    ]

-- With the VA-API backend, the path that FindDevicePath gives is that of a probed device which
-- lists, for a profile of the codec, an entry point for its direction with 4:2:0 pictures that a
-- configuration can be made of, and FFmpeg has the codec.
pub find_vaapi_path-IsChosen :
    (ffmpeg : Ffmpeg) (devices : List VaapiDevice) (spec : CodecSpec) (path : Text)
    → find_vaapi_path ffmpeg devices spec ≡ some path
    → (has_ffmpeg_codec ffmpeg spec ≡ true) × IsChosen devices spec path
unfolding find_vaapi_path
find_vaapi_path-IsChosen ffmpeg devices spec path h =
    elim (Bool-cases (has_ffmpeg_codec ffmpeg spec)) [
      | inl there ↦ (there, first_usable-IsChosen devices spec path (rw there at h))
      | inr missing ↦ cc (rw missing at h)
    ]
